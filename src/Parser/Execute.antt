-- ===== src/Parser/Execute.antt =====
-- src/parser.c, `parse_and_execute`, with a definition for each of its cases. Freeing the words is left
-- out, and so is clearing `job->desc`, which is not used again.
use solidbits.Prelude.{
  ℕ, ◌-◌, not, ◌&&◌, ◌||◌, Option, none, some, List, [], ◌∷◌, map, take, drop, length, ltb, ◌==◌,
  if◌then◌else◌,
}
use solidbits.Prelude.Int.{ℤ, pos_part}
use solidbits.Store.{M, pure, ◌>>=◌, ◌>>◌, get_desc}
use solidbits.Bitops.{SetbitCmd, GetbitCmd, setbit_command, getbit_command, bitcount_command}
use solidbits.Bitop.{OpOptions, OpHooks, no_hook, count_op, get_op}
use solidbits.Bitop.Round.{BitopCmd, bitop_command}
use solidbits.Prepare.{
  create, existing, truncate, ready, failure, not_found, prepare_file, prepare_files,
}
use solidbits.Parser.Words.{get_arg_count, split_fill}
use solidbits.Parser.Number.{c_string, atol}
use solidbits.Parser.Answer.{
  Answer, cmd_too_short, arg_too_many, args_too_many, out_of_range, not_a_bit, key_too_long,
  filesystem_failed, unknown_option, one_source, unknown_cmd, nothing_there,
}
use solidbits.Parser.Cases.{
  arg, bad_offset, bad_value, bitcount_cmd, bitcount_hash, bitfield_hash, bitop_hash, bitpos_hash,
  copy_key_fails, execute_bitfield, execute_bitpos, finish, getbit_hash, is_not, parse_hook,
  parse_option, release_all_descs, setbit_hash,
}

module _ (xxh64 : List ℕ → ℕ) where
  -- From the call of `prepare_file` on.
  unfoldable pub run_setbit : SetbitCmd → M Answer
  unfolding prepare_file setbit_command finish
  run_setbit cmd = do
    r ← prepare_file xxh64 cmd.key create
    elim r [
      | failure ↦ pure filesystem_failed
      | not_found ↦ pure filesystem_failed
      | ready dt ↦ setbit_command cmd dt >>= λ result. finish (some dt ∷ []) result
    ]

  -- The checks of the words, in their order.
  unfoldable pub checked_setbit : List ℕ → ℤ → ℤ → M Answer
  unfolding run_setbit copy_key_fails
  checked_setbit key offset value =
      if bad_offset offset
      then pure out_of_range
      else if bad_value value
      then pure not_a_bit
      else if copy_key_fails key
      then pure key_too_long
      else run_setbit (record { key = key; offset = pos_part offset; value = pos_part value })

  unfoldable pub execute_setbit : List ℕ → ℕ → M Answer
  unfolding checked_setbit split_fill atol c_string
  execute_setbit line c =
      let run = λ (args : List (List ℕ)).
        checked_setbit (arg args 0) (atol (arg args 1)) (atol (arg args 2)) in
      if not (c == 4) then pure arg_too_many else run (split_fill line c)

  unfoldable pub run_getbit : GetbitCmd → M Answer
  unfolding prepare_file getbit_command finish
  run_getbit cmd = do
    r ← prepare_file xxh64 cmd.key existing
    elim r [
      | not_found ↦ pure nothing_there
      | failure ↦ pure filesystem_failed
      | ready dt ↦ getbit_command cmd dt >>= λ result. finish (some dt ∷ []) result
    ]

  unfoldable pub checked_getbit : List ℕ → ℤ → M Answer
  unfolding run_getbit copy_key_fails
  checked_getbit key offset =
      if bad_offset offset
      then pure out_of_range
      else if copy_key_fails key
      then pure key_too_long
      else run_getbit (record { key = key; offset = pos_part offset })

  unfoldable pub execute_getbit : List ℕ → ℕ → M Answer
  unfolding checked_getbit split_fill atol c_string
  execute_getbit line c =
      let run = λ (args : List (List ℕ)). checked_getbit (arg args 0) (atol (arg args 1)) in
      if not (c == 3) then pure args_too_many else run (split_fill line c)

  -- From `prepare_files` on.
  unfoldable pub run_bitop : BitopCmd → Option ℕ → List (List ℕ) → M Answer
  unfolding prepare_files bitop_command finish
  run_bitop cmd dest keys = do
    r ← prepare_files xxh64 keys
    elim r [
      | none ↦ release_all_descs (dest ∷ []) >> pure filesystem_failed
      | some dts ↦ bitop_command cmd dest dts >>= λ result. finish (dest ∷ dts) result
    ]

  -- The destination, unless there is a hook.
  unfoldable pub bitop_into : List ℕ → OpOptions → OpHooks → List (List ℕ) → M Answer
  unfolding run_bitop prepare_file copy_key_fails
  bitop_into key option count_op keys =
      run_bitop (record { key = []; hook = count_op; option = option }) none keys
  bitop_into key option get_op keys =
      run_bitop (record { key = []; hook = get_op; option = option }) none keys
  bitop_into key option no_hook keys =
      if copy_key_fails key
      then pure key_too_long
      else (prepare_file xxh64 key truncate >>= λ r. elim r [
        | failure ↦ pure filesystem_failed
        | not_found ↦ pure filesystem_failed
        | ready dt ↦
            run_bitop (record { key = key; hook = no_hook; option = option }) (some dt) keys
      ])

  unfoldable pub execute_bitop : List ℕ → ℕ → M Answer
  unfolding bitop_into split_fill c_string parse_option parse_hook
  execute_bitop line c =
      let args = split_fill line c in
      if ltb c 4 || ltb 19 c then pure args_too_many else elim (parse_option (arg args 0)) [
        | none ↦ pure unknown_option
        | some option ↦
            if is_not option && not (c == 4)
            then pure one_source
            else elim (parse_hook (arg args 1)) [
              | none ↦ pure unknown_option
              | some hook ↦
                  bitop_into (arg args 1) option hook (map c_string (take (c - 3) (drop 2 args)))
            ]
      ]

  unfoldable pub run_bitcount : ℕ → List (List ℕ) → M Answer
  unfolding prepare_file bitcount_command finish bitcount_cmd
  run_bitcount c args = do
    r ← prepare_file xxh64 (arg args 0) existing
    elim r [
      | not_found ↦ pure nothing_there
      | failure ↦ pure filesystem_failed
      | ready dt ↦ do
        d ← get_desc dt
        if d.length == 0
            then (release_all_descs (some dt ∷ []) >> pure nothing_there)
            else (bitcount_command (bitcount_cmd c args d.length) dt >>= λ result.
                finish (some dt ∷ []) result)
    ]

  unfoldable pub execute_bitcount : List ℕ → ℕ → M Answer
  unfolding run_bitcount split_fill c_string copy_key_fails
  execute_bitcount line c =
      let args = split_fill line c in
      if ltb c 2 || ltb 4 c
      then pure args_too_many
      else if copy_key_fails (arg args 0)
      then pure key_too_long
      else run_bitcount c args

  -- `switch (hash)`
  unfoldable pub execute : ℕ → List ℕ → ℕ → M Answer
  unfolding execute_setbit execute_getbit execute_bitop execute_bitcount execute_bitpos
      execute_bitfield
  execute hash line c =
      if hash == setbit_hash
      then execute_setbit line c
      else if hash == getbit_hash
      then execute_getbit line c
      else if hash == bitop_hash
      then execute_bitop line c
      else if hash == bitcount_hash
      then execute_bitcount line c
      else if hash == bitpos_hash
      then execute_bitpos c
      else if hash == bitfield_hash
      then execute_bitfield c
      else pure unknown_cmd

  unfoldable pub parse_and_execute : List ℕ → M Answer
  unfolding execute get_arg_count
  parse_and_execute line =
      if ltb (length line) 10
      then pure cmd_too_short
      else execute (xxh64 (take 5 line)) line (get_arg_count line)
