-- ===== src/Tests/Words.antt =====
-- Command lines: their words, their answers, and numbers.
use solidbits.Prelude.{false, ◌≡◌, refl, some, drop, length, arith}
use solidbits.Prelude.Int.{pos}
use solidbits.Net.{new_work}
use solidbits.Parser.Words.{words, get_arg_count, split_fill}
use solidbits.Parser.Split.{get_arg_count_lem, split_fill_lem}
use solidbits.Parser.Number.{atol}
use solidbits.Parser.Decimal.{atol-answer_to}
use solidbits.Parser.Answer.{answer_to, answer_result, codes, no_answer, arg_too_many}
use solidbits.Parser.Execute.{parse_and_execute}
use solidbits.Parser.Replies.{IsReply}
use solidbits.Parser.Answered.{parse_and_execute-IsReply}
use solidbits.Parser.Unanswered.{bitpos_is_silent}
use solidbits.Tests.Demo.{demo_key, demo_hash, demo_store}

get_arg_count_lem_example : get_arg_count (codes "a  bc ") ≡ length (words (codes "a  bc "))
get_arg_count_lem_example = get_arg_count_lem (codes "a  bc ")

split_fill_lem_example :
    split_fill (codes "a  bc d") (get_arg_count (codes "a  bc d"))
    ≡ drop 1 (words (codes "a  bc d"))
split_fill_lem_example = split_fill_lem (codes "a  bc d")

atol-answer_to_example :
    atol (answer_to false (new_work demo_key) (answer_result (some 4096))).resp_buf ≡ pos 4096
atol-answer_to_example = atol-answer_to false demo_key 4096 (omega arith)

setbit_arity :
    parse_and_execute demo_hash (codes "SETBIT k 9") demo_store ≡ some (arg_too_many, demo_store)
unfolding parse_and_execute
setbit_arity = refl

parse_and_execute-IsReply_example : IsReply arg_too_many
parse_and_execute-IsReply_example =
    parse_and_execute-IsReply demo_hash (codes "SETBIT k 9") demo_store demo_store arg_too_many
      (λ e. omega (arith, e)) (λ e. omega (arith, e)) setbit_arity

bitpos_is_silent_example :
    parse_and_execute demo_hash (codes "BITPOS k 1") demo_store ≡ some (no_answer, demo_store)
bitpos_is_silent_example =
    bitpos_is_silent demo_hash (codes "BITPOS k 1") demo_store (omega arith) refl
