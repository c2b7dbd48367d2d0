-- ===== src/Parser/Line.antt =====
-- A whole command line, for a key whose descriptor is open: from the words of the line to its reply.
use solidbits.Prelude.{
  ℕ, ◌/◌, ◌≡◌, ◌≤◌, ◌<◌, ◌∙◌, ap, sym, some, List, [], ◌∷◌, length, take, drop, refl, ap₂, ltb,
  false, arith,
}
use solidbits.Prelude.Int.{pos}
use solidbits.Store.Keys.{SameKeys}
use solidbits.Store.{Store}
use solidbits.Stdio.Holds.{Holds}
use solidbits.Bitops.{SetbitCmd, GetbitCmd}
use solidbits.Bitops.Bit.{bit_at}
use solidbits.Bitops.SetGet.{BitSet}
use solidbits.Prepare.{found}
use solidbits.Prepare.Lookup.{looked_up}
use solidbits.Parser.Words.{words, get_arg_count, split_fill}
use solidbits.Parser.Split.{get_arg_count_lem, split_fill_lem}
use solidbits.Parser.Number.{c_string, atol}
use solidbits.Parser.Cases.{setbit_hash, getbit_hash, arg, file_size_limit, copy_key_fails}
use solidbits.Parser.Execute.{
  parse_and_execute, execute, execute_setbit, execute_getbit, checked_setbit, checked_getbit,
  run_setbit, run_getbit,
}
use solidbits.Parser.Cached.{number, run_setbit_lem}
use solidbits.Parser.Reading.{run_getbit_lem}

-- A line `name key offset value` that passes the checks of SETBIT.
pub record SetbitLine (xxh64 : List ℕ → ℕ) (line : List ℕ) (cmd : SetbitCmd) : Type 0 where
  pub name : List ℕ
  pub key : List ℕ
  pub offset : List ℕ
  pub value : List ℕ
  pub has_words : words line ≡ name ∷ key ∷ offset ∷ value ∷ []
  pub is_setbit : xxh64 (take 5 line) ≡ setbit_hash
  pub long_enough : 10 ≤ length line
  pub has_key : c_string key ≡ cmd.key
  pub has_offset : atol (c_string offset) ≡ pos cmd.offset
  pub has_value : atol (c_string value) ≡ pos cmd.value
  pub key_fits : length cmd.key ≤ 64
  pub offset_fits : cmd.offset / 8 ≤ file_size_limit
  pub is_bit : cmd.value < 2

checked_setbit_lem :
    (xxh64 : List ℕ → ℕ) (cmd : SetbitCmd)
    → length cmd.key ≤ 64
    → cmd.offset / 8 ≤ file_size_limit
    → cmd.value < 2
    → checked_setbit xxh64 cmd.key (pos cmd.offset) (pos cmd.value) ≡ run_setbit xxh64 cmd
unfolding checked_setbit
checked_setbit_lem xxh64 cmd k o v =
    let keeps : copy_key_fails cmd.key ≡ false = ground arith in
    let low : ltb file_size_limit (cmd.offset / 8) ≡ false = ground arith in
    let bit : ltb 1 cmd.value ≡ false = ground arith in rw (low, bit, keeps)

-- The words of a line, as `execute_setbit` takes them from it.
execute_setbit_lem :
    (xxh64 : List ℕ → ℕ) (line : List ℕ) (args : List (List ℕ))
    → split_fill line 4 ≡ args
    → execute_setbit xxh64 line 4
      ≡ checked_setbit xxh64 (arg args 0) (atol (arg args 1)) (atol (arg args 2))
unfolding execute_setbit
execute_setbit_lem xxh64 line args e =
    ap (λ args. checked_setbit xxh64 (arg args 0) (atol (arg args 1)) (atol (arg args 2))) e

pub parse_and_execute_lem :
    (xxh64 : List ℕ → ℕ) (line : List ℕ)
    → 10 ≤ length line
    → parse_and_execute xxh64 line ≡ execute xxh64 (xxh64 (take 5 line)) line (get_arg_count line)
unfolding parse_and_execute
parse_and_execute_lem xxh64 line h =
    let long : ltb (length line) 10 ≡ false = ground arith in rw long

execute-setbit_hash :
    (xxh64 : List ℕ → ℕ) (line : List ℕ) (c : ℕ)
    → execute xxh64 setbit_hash line c ≡ execute_setbit xxh64 line c
unfolding execute
execute-setbit_hash xxh64 line c = refl

pub SetbitLine-runs :
    (xxh64 : List ℕ → ℕ) (line : List ℕ) (cmd : SetbitCmd)
    → SetbitLine xxh64 line cmd
    → parse_and_execute xxh64 line ≡ run_setbit xxh64 cmd
SetbitLine-runs xxh64 line cmd l =
    let count : get_arg_count line ≡ 4 = get_arg_count_lem line ∙ ap length l.has_words in
    let args : split_fill line 4 ≡ l.key ∷ l.offset ∷ l.value ∷ [] =
      ap (split_fill line) (sym count) ∙ split_fill_lem line ∙ ap (drop 1) l.has_words in
    parse_and_execute_lem xxh64 line l.long_enough
    ∙ ap₂ (λ h c. execute xxh64 h line c) l.is_setbit count
    ∙ execute-setbit_hash xxh64 line 4
    ∙ execute_setbit_lem xxh64 line _ args
    ∙ rw (l.has_key, l.has_offset, l.has_value)
        (checked_setbit_lem xxh64 cmd l.key_fits l.offset_fits l.is_bit)

-- If the line is a SETBIT that passes the checks, the key's descriptor is in the table, open and in
-- step with its file, and no call fails, then the reply is the bit that was there; the bit is
-- written, every other bit of the key and every other file stays as it was, the descriptor stays in
-- step, and every entry of the table keeps its hash and its link.
pub setbit_line_lem :
    (xxh64 : List ℕ → ℕ) (line : List ℕ) (cmd : SetbitCmd) (s : Store) (dt : ℕ) (path bs : List ℕ)
    → SetbitLine xxh64 line cmd
    → looked_up s (xxh64 cmd.key) ≡ found dt
    → Holds s dt path bs
    → (t : Store) × (parse_and_execute xxh64 line s ≡ some (number (bit_at bs cmd.offset), t))
      × BitSet s t dt path bs cmd.offset cmd.value
setbit_line_lem xxh64 line cmd s dt path bs l h o =
    let (t, run, b) = run_setbit_lem xxh64 s dt path bs cmd h o l.is_bit in
    (t, ap (λ m. m s) (SetbitLine-runs xxh64 line cmd l) ∙ run, b)

-- A line `name key offset` that passes the checks of GETBIT.
pub record GetbitLine (xxh64 : List ℕ → ℕ) (line : List ℕ) (cmd : GetbitCmd) : Type 0 where
  pub name : List ℕ
  pub key : List ℕ
  pub offset : List ℕ
  pub has_words : words line ≡ name ∷ key ∷ offset ∷ []
  pub is_getbit : xxh64 (take 5 line) ≡ getbit_hash
  pub long_enough : 10 ≤ length line
  pub has_key : c_string key ≡ cmd.key
  pub has_offset : atol (c_string offset) ≡ pos cmd.offset
  pub key_fits : length cmd.key ≤ 64
  pub offset_fits : cmd.offset / 8 ≤ file_size_limit

checked_getbit_lem :
    (xxh64 : List ℕ → ℕ) (cmd : GetbitCmd)
    → length cmd.key ≤ 64
    → cmd.offset / 8 ≤ file_size_limit
    → checked_getbit xxh64 cmd.key (pos cmd.offset) ≡ run_getbit xxh64 cmd
unfolding checked_getbit
checked_getbit_lem xxh64 cmd k o =
    let keeps : copy_key_fails cmd.key ≡ false = ground arith in
    let low : ltb file_size_limit (cmd.offset / 8) ≡ false = ground arith in rw (low, keeps)

execute_getbit_lem :
    (xxh64 : List ℕ → ℕ) (line : List ℕ) (args : List (List ℕ))
    → split_fill line 3 ≡ args
    → execute_getbit xxh64 line 3 ≡ checked_getbit xxh64 (arg args 0) (atol (arg args 1))
unfolding execute_getbit
execute_getbit_lem xxh64 line args e =
    ap (λ args. checked_getbit xxh64 (arg args 0) (atol (arg args 1))) e

execute-getbit_hash :
    (xxh64 : List ℕ → ℕ) (line : List ℕ) (c : ℕ)
    → execute xxh64 getbit_hash line c ≡ execute_getbit xxh64 line c
unfolding execute
execute-getbit_hash xxh64 line c = refl

pub GetbitLine-runs :
    (xxh64 : List ℕ → ℕ) (line : List ℕ) (cmd : GetbitCmd)
    → GetbitLine xxh64 line cmd
    → parse_and_execute xxh64 line ≡ run_getbit xxh64 cmd
GetbitLine-runs xxh64 line cmd l =
    let count : get_arg_count line ≡ 3 = get_arg_count_lem line ∙ ap length l.has_words in
    let args : split_fill line 3 ≡ l.key ∷ l.offset ∷ [] =
      ap (split_fill line) (sym count) ∙ split_fill_lem line ∙ ap (drop 1) l.has_words in
    parse_and_execute_lem xxh64 line l.long_enough
    ∙ ap₂ (λ h c. execute xxh64 h line c) l.is_getbit count
    ∙ execute-getbit_hash xxh64 line 3
    ∙ execute_getbit_lem xxh64 line _ args
    ∙ rw (l.has_key, l.has_offset) (checked_getbit_lem xxh64 cmd l.key_fits l.offset_fits)

-- If the line is a GETBIT that passes the checks, the key's descriptor is in the table, open and in
-- step with its file, and no call fails, then the reply is the bit at the offset, no file changes,
-- the descriptor stays in step, and every entry of the table keeps its hash and its link.
pub getbit_line_lem :
    (xxh64 : List ℕ → ℕ) (line : List ℕ) (cmd : GetbitCmd) (s : Store) (dt : ℕ) (path bs : List ℕ)
    → GetbitLine xxh64 line cmd
    → looked_up s (xxh64 cmd.key) ≡ found dt
    → Holds s dt path bs
    → (t : Store) × (parse_and_execute xxh64 line s ≡ some (number (bit_at bs cmd.offset), t))
      × Holds t dt path bs
      × (t.disk ≡ s.disk)
      × SameKeys s t dt
getbit_line_lem xxh64 line cmd s dt path bs l h o =
    let (t, run, o', d, k) = run_getbit_lem xxh64 s dt path bs cmd h o in
    (t, ap (λ m. m s) (GetbitLine-runs xxh64 line cmd l) ∙ run, o', d, k)
