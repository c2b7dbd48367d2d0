-- ===== src/Parser/CountLine.antt =====
-- A BITCOUNT line that names its range.
use solidbits.Prelude.{
  if◌then◌else◌, ℕ, ◌≡◌, ◌≤◌, ◌∙◌, ap, ap₂, sym, refl, List, [], ◌∷◌, length, take, drop, false,
  arith,
}
use solidbits.Store.{pure}
use solidbits.Parser.Answer.{key_too_long}
use solidbits.Bitops.{BitcountCmd}
use solidbits.Parser.Words.{words, get_arg_count, split_fill}
use solidbits.Parser.Split.{get_arg_count_lem, split_fill_lem}
use solidbits.Parser.Number.{c_string, atol}
use solidbits.Parser.Cases.{bitcount_hash, arg, copy_key_fails, bitcount_cmd}
use solidbits.Parser.Execute.{parse_and_execute, execute, execute_bitcount, run_bitcount}
use solidbits.Parser.Line.{parse_and_execute_lem}
use solidbits.Parser.Reading.{reading, count_body}

-- A line `name key start end` that passes the checks of BITCOUNT.
pub record BitcountLine (xxh64 : List ℕ → ℕ) (line : List ℕ) (cmd : BitcountCmd) : Type 0 where
  pub name : List ℕ
  pub key : List ℕ
  pub start : List ℕ
  pub end : List ℕ
  pub has_words : words line ≡ name ∷ key ∷ start ∷ end ∷ []
  pub is_bitcount : xxh64 (take 5 line) ≡ bitcount_hash
  pub long_enough : 10 ≤ length line
  pub has_key : c_string key ≡ cmd.key
  pub has_start : atol (c_string start) ≡ cmd.start
  pub has_end : atol (c_string end) ≡ cmd.end
  pub key_fits : length cmd.key ≤ 64

-- The command that the words after the name make.
abbrev named : List (List ℕ) → BitcountCmd
named args = record { key = arg args 0; start = atol (arg args 1); end = atol (arg args 2) }

run_bitcount-named :
    (xxh64 : List ℕ → ℕ) (args : List (List ℕ))
    → run_bitcount xxh64 4 args ≡ reading xxh64 (arg args 0) (count_body (named args))
unfolding run_bitcount reading bitcount_cmd
run_bitcount-named xxh64 args = refl

named-cmd :
    (cmd : BitcountCmd) (args : List (List ℕ))
    → arg args 0 ≡ cmd.key
    → atol (arg args 1) ≡ cmd.start
    → atol (arg args 2) ≡ cmd.end
    → named args ≡ cmd
named-cmd cmd args k a b =
    ap (λ k. record (named args) { key = k }) k
    ∙ ap (λ a. record (named args) { key = cmd.key; start = a }) a
    ∙ ap (λ b. record cmd { end = b }) b

run_bitcount-reading :
    (xxh64 : List ℕ → ℕ) (cmd : BitcountCmd) (args : List (List ℕ))
    → named args ≡ cmd
    → run_bitcount xxh64 4 args ≡ reading xxh64 cmd.key (count_body cmd)
run_bitcount-reading xxh64 cmd args e =
    run_bitcount-named xxh64 args ∙ ap (λ (c : BitcountCmd). reading xxh64 c.key (count_body c)) e

execute_bitcount_lem :
    (xxh64 : List ℕ → ℕ) (line : List ℕ) (args : List (List ℕ))
    → split_fill line 4 ≡ args
    → copy_key_fails (arg args 0) ≡ false
    → execute_bitcount xxh64 line 4 ≡ run_bitcount xxh64 4 args
unfolding execute_bitcount
execute_bitcount_lem xxh64 line args e fits =
    ap
      (λ args. if copy_key_fails (arg args 0) then pure key_too_long else run_bitcount xxh64 4 args)
      e
    ∙ rw fits refl

key-copy_key_fails : (key : List ℕ) → length key ≤ 64 → copy_key_fails key ≡ false
unfolding copy_key_fails
key-copy_key_fails key h = ground arith

execute-bitcount_hash :
    (xxh64 : List ℕ → ℕ) (line : List ℕ) (c : ℕ)
    → execute xxh64 bitcount_hash line c ≡ execute_bitcount xxh64 line c
unfolding execute
execute-bitcount_hash xxh64 line c = refl

pub BitcountLine-runs :
    (xxh64 : List ℕ → ℕ) (line : List ℕ) (cmd : BitcountCmd)
    → BitcountLine xxh64 line cmd
    → parse_and_execute xxh64 line ≡ reading xxh64 cmd.key (count_body cmd)
BitcountLine-runs xxh64 line cmd l =
    let count : get_arg_count line ≡ 4 = get_arg_count_lem line ∙ ap length l.has_words in
    let args : split_fill line 4 ≡ l.key ∷ l.start ∷ l.end ∷ [] =
      ap (split_fill line) (sym count) ∙ split_fill_lem line ∙ ap (drop 1) l.has_words in
    let fits : copy_key_fails (c_string l.key) ≡ false =
      ap copy_key_fails l.has_key ∙ key-copy_key_fails cmd.key l.key_fits in
    parse_and_execute_lem xxh64 line l.long_enough
    ∙ ap₂ (λ h c. execute xxh64 h line c) l.is_bitcount count
    ∙ execute-bitcount_hash xxh64 line 4
    ∙ execute_bitcount_lem xxh64 line _ args fits
    ∙ run_bitcount-reading xxh64 cmd _
        (named-cmd cmd (l.key ∷ l.start ∷ l.end ∷ []) l.has_key l.has_start l.has_end)
