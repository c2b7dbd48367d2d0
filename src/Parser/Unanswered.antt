-- ===== src/Parser/Unanswered.antt =====
-- The lines that get no answer.
use solidbits.Prelude.{ℕ, ◌≡◌, ◌≤◌, ap, ◌∙◌, some, List, length, take, arith}
use solidbits.Store.{Store}
use solidbits.Parser.Words.{get_arg_count}
use solidbits.Parser.Answer.{no_answer}
use solidbits.Parser.Cases.{execute_bitpos, bitpos_hash}
use solidbits.Parser.Execute.{execute, parse_and_execute}
use solidbits.Parser.Line.{parse_and_execute_lem}

bitpos_arity : (c : ℕ) (s : Store) → execute_bitpos c s ≡ some (no_answer, s)
unfolding execute_bitpos
bitpos_arity c s = ground arith

execute-bitpos_hash :
    (xxh64 : List ℕ → ℕ) (line : List ℕ) (c : ℕ) (s : Store)
    → execute xxh64 bitpos_hash line c s ≡ some (no_answer, s)
unfolding execute
execute-bitpos_hash xxh64 line c s = bitpos_arity c s

-- A line of at least ten bytes with BITPOS gets no answer, whatever the number of its words.
pub bitpos_is_silent :
    (xxh64 : List ℕ → ℕ) (line : List ℕ) (s : Store)
    → 10 ≤ length line
    → xxh64 (take 5 line) ≡ bitpos_hash
    → parse_and_execute xxh64 line s ≡ some (no_answer, s)
bitpos_is_silent xxh64 line s long h =
    ap (λ m. m s) (parse_and_execute_lem xxh64 line long)
    ∙ ap (λ hash. execute xxh64 hash line (get_arg_count line) s) h
    ∙ execute-bitpos_hash xxh64 line (get_arg_count line) s
