-- ===== src/Parser/Answer.antt =====
-- The answers of `parse_and_execute`: the text and the length that it hands to `reply`.
use Prim.Native.String.{String}
use Prim.Native.Char.{code}
use solidbits.Prelude.{ℕ, Bool, Option, none, some, List, [], ◌∷◌, ◌++◌, length}
use solidbits.Parser.Number.{decimal_line, printed, buf_size}
use solidbits.Net.{WorkReq, reply}

abbrev pub codes : String → List ℕ
codes String.[] = []
codes (String.◌∷◌ c s) = code c ∷ codes s

pub data Answer : Type 0 where
  no_answer : Answer
  answer : List ℕ → ℕ → Answer

-- A literal with its "\n".
abbrev pub line_of : String → List ℕ
line_of s = codes s ++ b'\n' ∷ []

abbrev pub cmd_too_short : Answer
cmd_too_short = answer (line_of "ERR:CMD TOO SHORT") 18

abbrev pub arg_too_many : Answer
arg_too_many = answer (line_of "ERR:ARG TOO MANY OR FEW") 24

abbrev pub args_too_many : Answer
args_too_many = answer (line_of "ERR:ARGS TOO MANY OR FEW") 25

abbrev pub args_too_few : Answer
args_too_few = answer (line_of "ERR:ARGS TOO FEW") 17

abbrev pub out_of_range : Answer
out_of_range = answer (line_of "ERR:OFFSET OUT OF RANGE") 24

abbrev pub not_a_bit : Answer
not_a_bit = answer (line_of "ERR:SETBIT(3) MUST BE 1 OR 0") 29

abbrev pub key_too_long : Answer
key_too_long = answer (line_of "ERR:KEY TOO LONG") 17

abbrev pub filesystem_failed : Answer
filesystem_failed = answer (line_of "ERR:FILESYSTEM FAILED") 22

abbrev pub access_failed : Answer
access_failed = answer (line_of "ERR:FILE ACCESS FAILED") 23

abbrev pub unknown_option : Answer
unknown_option = answer (line_of "ERR:UKNOW OPTION") 17

abbrev pub one_source : Answer
one_source = answer (line_of "ERR:BITOP NOT JUST NEEDS ONE SOURCE") 36

abbrev pub unknown_cmd : Answer
unknown_cmd = answer (line_of "ERR:UNKNOW CMD") 15

abbrev pub nothing_there : Answer
nothing_there = answer (line_of "0") 2

-- The reply to a command that has run: its result, or that it returned -1. `snprintf` returns the length
-- of the whole text, and `reply` is given that.
unfoldable pub answer_result : Option ℕ → Answer
unfolding decimal_line printed
answer_result none = access_failed
answer_result (some n) = answer (printed buf_size (decimal_line n)) (length (decimal_line n))

-- `work_cb`: the call of `reply` fills the response of the request.
unfoldable pub answer_to : Bool → WorkReq → Answer → WorkReq
unfolding reply
answer_to realloc w no_answer = w
answer_to realloc w (answer s len) = reply realloc w s len
