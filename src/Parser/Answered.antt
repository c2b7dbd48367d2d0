-- ===== src/Parser/Answered.antt =====
-- Every line but those of BITPOS and BITFIELD is answered with one line.
use solidbits.Prelude.{
  ◌≢◌, false, arith, ℕ, ◌≡◌, refl, Option, none, some, List, [], ◌∷◌, length, map, drop, ◌-◌, ◌&&◌,
  ◌||◌, take, ltb, ◌==◌, not,
}
use solidbits.Prelude.Int.{ℤ, pos_part}
use solidbits.Store.{Store, pure, ◌>>◌, get_desc}
use solidbits.Bitops.{SetbitCmd, GetbitCmd, setbit_command, getbit_command, bitcount_command}
use solidbits.Bitop.{OpOptions, OpHooks, no_hook, count_op, get_op}
use solidbits.Bitop.Round.{BitopCmd, bitop_command}
use solidbits.Prepare.{create, existing, truncate, prepare_file, prepare_files}
use solidbits.Parser.Words.{get_arg_count, split_fill}
use solidbits.Parser.Number.{c_string, atol}
use solidbits.Parser.Answer.{
  Answer, cmd_too_short, filesystem_failed, nothing_there, out_of_range, key_too_long,
  args_too_many, unknown_option, arg_too_many, not_a_bit, one_source, unknown_cmd,
}
use solidbits.Parser.Cases.{
  arg, bad_offset, bad_value, copy_key_fails, parse_option, parse_hook, is_not, release_all_descs,
  bitcount_cmd, setbit_hash, getbit_hash, bitop_hash, bitcount_hash, bitpos_hash, bitfield_hash,
}
use solidbits.Parser.Execute.{
  run_setbit, checked_setbit, execute_setbit, run_getbit, checked_getbit, execute_getbit, run_bitop,
  bitop_into, execute_bitop, run_bitcount, execute_bitcount, execute, parse_and_execute,
}
use solidbits.Parser.Replies.{
  AnswersLine, AnswersLine-opened, AnswersLine-option, AnswersLine-pure, AnswersLine-bind,
  AnswersLine-if, IsReply, literal, finish_line,
}

module _ (xxh64 : List ℕ → ℕ) where
  failed_line : AnswersLine (pure filesystem_failed)
  failed_line = AnswersLine-pure _ (literal "ERR:FILESYSTEM FAILED" 22 refl refl)

  zero_line : AnswersLine (pure nothing_there)
  zero_line = AnswersLine-pure _ (literal "0" 2 refl refl)

  range_line : AnswersLine (pure out_of_range)
  range_line = AnswersLine-pure _ (literal "ERR:OFFSET OUT OF RANGE" 24 refl refl)

  key_line : AnswersLine (pure key_too_long)
  key_line = AnswersLine-pure _ (literal "ERR:KEY TOO LONG" 17 refl refl)

  args_line : AnswersLine (pure args_too_many)
  args_line = AnswersLine-pure _ (literal "ERR:ARGS TOO MANY OR FEW" 25 refl refl)

  option_line : AnswersLine (pure unknown_option)
  option_line = AnswersLine-pure _ (literal "ERR:UKNOW OPTION" 17 refl refl)

  run_setbit_line : (cmd : SetbitCmd) → AnswersLine (run_setbit xxh64 cmd)
  unfolding run_setbit
  run_setbit_line cmd = AnswersLine-bind (prepare_file xxh64 cmd.key create) _ λ r.
      AnswersLine-opened r (pure filesystem_failed) (pure filesystem_failed) _ failed_line
        failed_line λ dt. AnswersLine-bind (setbit_command cmd dt) _ (finish_line (some dt ∷ []))

  checked_setbit_line :
      (key : List ℕ) (offset value : ℤ) → AnswersLine (checked_setbit xxh64 key offset value)
  unfolding checked_setbit
  checked_setbit_line key offset value = AnswersLine-if (bad_offset offset) _ _ range_line (
      AnswersLine-if (bad_value value) (pure not_a_bit) _
        (AnswersLine-pure _ (literal "ERR:SETBIT(3) MUST BE 1 OR 0" 29 refl refl))
        (AnswersLine-if (copy_key_fails key) _
          (run_setbit xxh64
            (record { key = key; offset = pos_part offset; value = pos_part value }))
          key_line (run_setbit_line _)))

  execute_setbit_line : (line : List ℕ) (c : ℕ) → AnswersLine (execute_setbit xxh64 line c)
  unfolding execute_setbit
  execute_setbit_line line c =
      AnswersLine-if (not (c == 4)) (pure arg_too_many) _
        (AnswersLine-pure _ (literal "ERR:ARG TOO MANY OR FEW" 24 refl refl))
        (checked_setbit_line (arg (split_fill line c) 0) (atol (arg (split_fill line c) 1))
          (atol (arg (split_fill line c) 2)))

  run_getbit_line : (cmd : GetbitCmd) → AnswersLine (run_getbit xxh64 cmd)
  unfolding run_getbit
  run_getbit_line cmd = AnswersLine-bind (prepare_file xxh64 cmd.key existing) _ λ r.
      AnswersLine-opened r (pure filesystem_failed) (pure nothing_there) _ failed_line zero_line
        λ dt. AnswersLine-bind (getbit_command cmd dt) _ (finish_line (some dt ∷ []))

  checked_getbit_line : (key : List ℕ) (offset : ℤ) → AnswersLine (checked_getbit xxh64 key offset)
  unfolding checked_getbit
  checked_getbit_line key offset = AnswersLine-if (bad_offset offset) _ _ range_line (
      AnswersLine-if (copy_key_fails key) _
        (run_getbit xxh64 (record { key = key; offset = pos_part offset })) key_line
        (run_getbit_line _))

  execute_getbit_line : (line : List ℕ) (c : ℕ) → AnswersLine (execute_getbit xxh64 line c)
  unfolding execute_getbit
  execute_getbit_line line c =
      AnswersLine-if (not (c == 3)) _ _ args_line
        (checked_getbit_line (arg (split_fill line c) 0) (atol (arg (split_fill line c) 1)))

  run_bitop_line :
      (cmd : BitopCmd) (dest : Option ℕ) (keys : List (List ℕ))
      → AnswersLine (run_bitop xxh64 cmd dest keys)
  unfolding run_bitop
  run_bitop_line cmd dest keys = AnswersLine-bind (prepare_files xxh64 keys) _ λ r.
      AnswersLine-option r (release_all_descs (dest ∷ []) >> pure filesystem_failed) _
        (AnswersLine-bind (release_all_descs (dest ∷ [])) _ λ x. failed_line)
        (λ dts. AnswersLine-bind (bitop_command cmd dest dts) _ (finish_line (dest ∷ dts)))

  bitop_into_line :
      (key : List ℕ) (option : OpOptions) (hook : OpHooks) (keys : List (List ℕ))
      → AnswersLine (bitop_into xxh64 key option hook keys)
  unfolding bitop_into
  bitop_into_line key option count_op keys =
      run_bitop_line (record { key = []; hook = count_op; option = option }) none keys
  bitop_into_line key option get_op keys =
      run_bitop_line (record { key = []; hook = get_op; option = option }) none keys
  bitop_into_line key option no_hook keys = AnswersLine-if (copy_key_fails key) _ _ key_line (
      AnswersLine-bind (prepare_file xxh64 key truncate) _ λ r.
        AnswersLine-opened r (pure filesystem_failed) (pure filesystem_failed) _ failed_line
          failed_line
          λ dt.
            run_bitop_line (record { key = key; hook = no_hook; option = option }) (some dt) keys)

  execute_bitop_line : (line : List ℕ) (c : ℕ) → AnswersLine (execute_bitop xxh64 line c)
  unfolding execute_bitop
  execute_bitop_line line c =
      let args = split_fill line c in
      AnswersLine-if (ltb c 4 || ltb 19 c) _ _ args_line (
        AnswersLine-option (parse_option (arg args 0)) _ _ option_line λ option.
          AnswersLine-if (is_not option && not (c == 4)) (pure one_source) _
            (AnswersLine-pure _ (literal "ERR:BITOP NOT JUST NEEDS ONE SOURCE" 36 refl refl))
            (AnswersLine-option (parse_hook (arg args 1)) _ _ option_line λ hook.
              bitop_into_line (arg args 1) option hook (map c_string (take (c - 3) (drop 2 args)))))

  run_bitcount_line : (c : ℕ) (args : List (List ℕ)) → AnswersLine (run_bitcount xxh64 c args)
  unfolding run_bitcount
  run_bitcount_line c args = AnswersLine-bind (prepare_file xxh64 (arg args 0) existing) _ λ r.
      AnswersLine-opened r (pure filesystem_failed) (pure nothing_there) _ failed_line zero_line
        λ dt. AnswersLine-bind (get_desc dt) _ λ d.
          AnswersLine-if (d.length == 0) _ _
            (AnswersLine-bind (release_all_descs (some dt ∷ [])) _ λ x. zero_line)
            (AnswersLine-bind (bitcount_command (bitcount_cmd c args d.length) dt) _
              (finish_line (some dt ∷ [])))

  execute_bitcount_line : (line : List ℕ) (c : ℕ) → AnswersLine (execute_bitcount xxh64 line c)
  unfolding execute_bitcount
  execute_bitcount_line line c = AnswersLine-if (ltb c 2 || ltb 4 c) _ _ args_line (
      AnswersLine-if (copy_key_fails (arg (split_fill line c) 0)) _ _ key_line
        (run_bitcount_line c (split_fill line c)))

execute_line :
    (xxh64 : List ℕ → ℕ) (hash : ℕ) (line : List ℕ) (c : ℕ)
    → hash ≢ bitpos_hash
    → hash ≢ bitfield_hash
    → AnswersLine (execute xxh64 hash line c)
unfolding execute
execute_line xxh64 hash line c p f =
    let no_bitpos : (hash == bitpos_hash) ≡ false = ground arith in
    let no_bitfield : (hash == bitfield_hash) ≡ false = ground arith in
    AnswersLine-if (hash == setbit_hash) _ _ (execute_setbit_line xxh64 line c) (
      AnswersLine-if (hash == getbit_hash) _ _ (execute_getbit_line xxh64 line c) (
        AnswersLine-if (hash == bitop_hash) _ _ (execute_bitop_line xxh64 line c) (
          AnswersLine-if (hash == bitcount_hash) _ _ (execute_bitcount_line xxh64 line c) (
            rw (no_bitpos, no_bitfield)
              (AnswersLine-pure unknown_cmd (literal "ERR:UNKNOW CMD" 15 refl refl))))))

parse_and_execute_answers :
    (xxh64 : List ℕ → ℕ) (line : List ℕ)
    → xxh64 (take 5 line) ≢ bitpos_hash
    → xxh64 (take 5 line) ≢ bitfield_hash
    → AnswersLine (parse_and_execute xxh64 line)
unfolding parse_and_execute
parse_and_execute_answers xxh64 line p f =
    AnswersLine-if (ltb (length line) 10) (pure cmd_too_short) _
      (AnswersLine-pure _ (literal "ERR:CMD TOO SHORT" 18 refl refl))
      (execute_line xxh64 (xxh64 (take 5 line)) line (get_arg_count line) p f)

-- Whatever the state of the table and the files and whichever calls fail, the answer to a line that is
-- neither BITPOS nor BITFIELD, of an unknown command too, is one line that ends in a newline, and the
-- length that is given to `reply` is within the text; unless it is the number of a result of 10^14 or
-- more, which with its newline does not fit in the 16 bytes of `buf`.
pub parse_and_execute-IsReply :
    (xxh64 : List ℕ → ℕ) (line : List ℕ) (s t : Store) (a : Answer)
    → xxh64 (take 5 line) ≢ bitpos_hash
    → xxh64 (take 5 line) ≢ bitfield_hash
    → parse_and_execute xxh64 line s ≡ some (a, t)
    → IsReply a
parse_and_execute-IsReply xxh64 line s t a p f e = parse_and_execute_answers xxh64 line p f s t a e
