-- ===== src/Parser/Keeps.antt =====
-- A line of a client keeps the table tidy, whatever it says and whichever calls fail.
use solidbits.Prelude.{
  ℕ, ◌-◌, Option, none, some, List, [], ◌∷◌, map, take, drop, length, not, ◌&&◌, ◌||◌, ltb, ◌==◌,
  if◌then◌else◌,
}
use solidbits.Store.{M, pure}
use solidbits.Store.Keeps.{Keeps, keeps_rules, Keeps-bind, Keeps-pure, Keeps-if, Keeps-option}
use solidbits.Bitops.{SetbitCmd, GetbitCmd}
use solidbits.Bitops.Keeps.{setbit_command-Keeps, getbit_command-Keeps, bitcount_command-Keeps}
use solidbits.Bitop.{OpOptions, OpHooks, no_hook, count_op, get_op}
use solidbits.Bitop.Round.{BitopCmd}
use solidbits.Bitop.Keeps.{bitop_command-Keeps}
use solidbits.Prepare.{create, existing, truncate}
use solidbits.Prepare.Keeps.{
  Keeps-opened, prepare_file-Keeps, prepare_files-Keeps, release_desc-Keeps,
}
use solidbits.Parser.Number.{c_string}
use solidbits.Parser.Answer.{
  Answer, args_too_many, key_too_long, unknown_cmd, cmd_too_short, unknown_option, one_source,
}
use solidbits.Parser.Cases.{
  arg, is_not, parse_option, parse_hook, copy_key_fails, setbit_hash, getbit_hash, bitop_hash,
  bitcount_hash, bitpos_hash, bitfield_hash, release_all_descs, finish, execute_bitpos,
  execute_bitfield,
}
use solidbits.Parser.Words.{get_arg_count, split_fill}
use solidbits.Parser.Execute.{
  run_setbit, execute_setbit, run_getbit, execute_getbit, run_bitop, bitop_into, execute_bitop,
  run_bitcount, execute_bitcount, execute, parse_and_execute,
}

release_all_descs-Keeps : (dts : List (Option ℕ)) → Keeps (release_all_descs dts)
unfolding release_all_descs
release_all_descs-Keeps [] = Keeps-pure tt
release_all_descs-Keeps (none ∷ dts) = release_all_descs-Keeps dts
release_all_descs-Keeps (some dt ∷ dts) =
    Keeps-bind _ _ (release_desc-Keeps dt) λ _. release_all_descs-Keeps dts

finish-Keeps : (dts : List (Option ℕ)) (result : Option ℕ) → Keeps (finish dts result)
unfolding finish
finish-Keeps dts result = Keeps-bind _ _ (release_all_descs-Keeps dts) λ _. Keeps-pure _

module _ (xxh64 : List ℕ → ℕ) where
  run_setbit-Keeps : (cmd : SetbitCmd) → Keeps (run_setbit xxh64 cmd)
  unfolding run_setbit
  run_setbit-Keeps cmd = Keeps-bind _ _ (prepare_file-Keeps xxh64 cmd.key create) λ r.
      Keeps-opened r _ _ _
        (λ dt. Keeps-bind _ _ (setbit_command-Keeps cmd dt) (finish-Keeps (some dt ∷ [])))
        (Keeps-pure _) (Keeps-pure _)

  execute_setbit-Keeps : (line : List ℕ) (c : ℕ) → Keeps (execute_setbit xxh64 line c)
  unfolding execute_setbit
  execute_setbit-Keeps line c = search (keeps_rules, run_setbit-Keeps) depth 10

  run_getbit-Keeps : (cmd : GetbitCmd) → Keeps (run_getbit xxh64 cmd)
  unfolding run_getbit
  run_getbit-Keeps cmd = Keeps-bind _ _ (prepare_file-Keeps xxh64 cmd.key existing) λ r.
      Keeps-opened r _ _ _
        (λ dt. Keeps-bind _ _ (getbit_command-Keeps cmd dt) (finish-Keeps (some dt ∷ [])))
        (Keeps-pure _) (Keeps-pure _)

  execute_getbit-Keeps : (line : List ℕ) (c : ℕ) → Keeps (execute_getbit xxh64 line c)
  unfolding execute_getbit
  execute_getbit-Keeps line c = search (keeps_rules, run_getbit-Keeps) depth 10

  run_bitop-Keeps :
      (cmd : BitopCmd) (dest : Option ℕ) (keys : List (List ℕ))
      → Keeps (run_bitop xxh64 cmd dest keys)
  unfolding run_bitop
  run_bitop-Keeps cmd dest keys = Keeps-bind _ _ (prepare_files-Keeps xxh64 keys) λ r.
      Keeps-option r _ _ (Keeps-bind _ _ (release_all_descs-Keeps (dest ∷ [])) λ _. Keeps-pure _)
        (λ dts. Keeps-bind _ _ (bitop_command-Keeps cmd dest dts) (finish-Keeps (dest ∷ dts)))

  bitop_into-Keeps :
      (key : List ℕ) (option : OpOptions) (hook : OpHooks) (keys : List (List ℕ))
      → Keeps (bitop_into xxh64 key option hook keys)
  unfolding bitop_into
  bitop_into-Keeps key option count_op keys = run_bitop-Keeps _ none keys
  bitop_into-Keeps key option get_op keys = run_bitop-Keeps _ none keys
  bitop_into-Keeps key option no_hook keys = Keeps-if _ _ _ (Keeps-pure _) (
      Keeps-bind _ _ (prepare_file-Keeps xxh64 key truncate) λ r.
        Keeps-opened r _ _ _ (λ dt. run_bitop-Keeps _ (some dt) keys) (Keeps-pure _) (Keeps-pure _))

  hook-Keeps :
      (hook : Option OpHooks) (key : List ℕ) (option : OpOptions) (keys : List (List ℕ))
      → Keeps (elim hook as (λ o. M Answer) [
        | none ↦ pure unknown_option
        | some hook ↦ bitop_into xxh64 key option hook keys
      ])
  hook-Keeps none key option keys = Keeps-pure unknown_option
  hook-Keeps (some hook) key option keys = bitop_into-Keeps key option hook keys

  option-Keeps :
      (option : Option OpOptions) (c : ℕ) (args : List (List ℕ))
      → Keeps (elim option as (λ o. M Answer) [
        | none ↦ pure unknown_option
        | some option ↦
            if is_not option && not (c == 4)
            then pure one_source
            else elim (parse_hook (arg args 1)) as (λ o. M Answer) [
              | none ↦ pure unknown_option
              | some hook ↦
                  bitop_into xxh64
                    (arg args 1)
                    option
                    hook
                    (map c_string (take (c - 3) (drop 2 args)))
            ]
      ])
  option-Keeps none c args = Keeps-pure unknown_option
  option-Keeps (some option) c args =
      Keeps-if (is_not option && not (c == 4)) (pure one_source) _ (Keeps-pure one_source)
        (hook-Keeps (parse_hook (arg args 1)) (arg args 1) option _)

  execute_bitop-Keeps : (line : List ℕ) (c : ℕ) → Keeps (execute_bitop xxh64 line c)
  unfolding execute_bitop
  execute_bitop-Keeps line c =
      Keeps-if (ltb c 4 || ltb 19 c) (pure args_too_many) _ (Keeps-pure args_too_many)
        (option-Keeps (parse_option (arg (split_fill line c) 0)) c (split_fill line c))

  run_bitcount-Keeps : (c : ℕ) (args : List (List ℕ)) → Keeps (run_bitcount xxh64 c args)
  unfolding run_bitcount
  run_bitcount-Keeps c args = Keeps-bind _ _ (prepare_file-Keeps xxh64 (arg args 0) existing) λ r.
      Keeps-opened r _ _ _
        (λ dt.
          search (keeps_rules, release_all_descs-Keeps, bitcount_command-Keeps, finish-Keeps) depth
            10)
        (Keeps-pure _) (Keeps-pure _)

  execute_bitcount-Keeps : (line : List ℕ) (c : ℕ) → Keeps (execute_bitcount xxh64 line c)
  unfolding execute_bitcount
  execute_bitcount-Keeps line c =
      Keeps-if (ltb c 2 || ltb 4 c) (pure args_too_many) _ (Keeps-pure args_too_many) (
        Keeps-if (copy_key_fails (arg (split_fill line c) 0)) (pure key_too_long) _
          (Keeps-pure key_too_long) (run_bitcount-Keeps c (split_fill line c)))

  execute_bitpos-Keeps : (c : ℕ) → Keeps (execute_bitpos c)
  unfolding execute_bitpos
  execute_bitpos-Keeps c = search (keeps_rules) depth 4

  execute_bitfield-Keeps : (c : ℕ) → Keeps (execute_bitfield c)
  unfolding execute_bitfield
  execute_bitfield-Keeps c = search (keeps_rules) depth 4

  execute-Keeps : (hash : ℕ) (line : List ℕ) (c : ℕ) → Keeps (execute xxh64 hash line c)
  unfolding execute
  execute-Keeps hash line c = Keeps-if (hash == setbit_hash) _ _ (execute_setbit-Keeps line c) (
      Keeps-if (hash == getbit_hash) _ _ (execute_getbit-Keeps line c) (
        Keeps-if (hash == bitop_hash) _ _ (execute_bitop-Keeps line c) (
          Keeps-if (hash == bitcount_hash) _ _ (execute_bitcount-Keeps line c) (
            Keeps-if (hash == bitpos_hash) _ _ (execute_bitpos-Keeps c) (
              Keeps-if (hash == bitfield_hash) _ _ (execute_bitfield-Keeps c)
                (Keeps-pure unknown_cmd))))))

  pub parse_and_execute-Keeps : (line : List ℕ) → Keeps (parse_and_execute xxh64 line)
  unfolding parse_and_execute
  parse_and_execute-Keeps line =
      Keeps-if (ltb (length line) 10) (pure cmd_too_short) _ (Keeps-pure cmd_too_short)
        (execute-Keeps (xxh64 (take 5 line)) line (get_arg_count line))
