-- ===== src/Parser/Cases.antt =====
-- src/parser.c, what the cases of `parse_and_execute` are made of: the hashes of the commands, the
-- checks and readings of words, and what follows a command.
use solidbits.Prelude.{
  ℕ, ◌-◌, ◌/◌, Bool, true, false, not, ◌&&◌, ◌||◌, Option, none, some, List, [], ◌∷◌, drop, length,
  get_or, ltb, ◌==◌, if◌then◌else◌,
}
use solidbits.Prelude.Int.{ℤ, pos, negsuc}
use solidbits.Store.{M, pure, ◌>>◌}
use solidbits.Bitops.{BitcountCmd}
use solidbits.Bitop.{OpOptions, OpHooks, op_and, op_or, op_xor, op_not, no_hook, count_op, get_op}
use solidbits.Prepare.{release_desc}
use solidbits.Parser.Number.{c_string, same_text, atol}
use solidbits.Parser.Answer.{Answer, no_answer, args_too_many, args_too_few, answer_result, codes}

abbrev pub file_size_limit : ℕ
file_size_limit = 2147483647

-- `t = offset >> 3; t < 0 || t > FILE_SIZE_LIMIT`
abbrev pub bad_offset : ℤ → Bool
bad_offset (pos n) = ltb file_size_limit (n / 8)
bad_offset (negsuc n) = true

-- `value & ~1`
abbrev pub bad_value : ℤ → Bool
bad_value (pos n) = ltb 1 n
bad_value (negsuc n) = true

-- `copy_key`, when it returns -1.
unfoldable pub copy_key_fails : List ℕ → Bool
copy_key_fails src = ltb 64 (length src)

abbrev pub arg : List (List ℕ) → ℕ → List ℕ
arg args i = c_string (get_or args i [])

-- The entries of `job->desc` that are set are let go.
unfoldable pub release_all_descs : List (Option ℕ) → M (Unit {0})
unfolding release_desc
release_all_descs [] = pure tt
release_all_descs (none ∷ dts) = release_all_descs dts
release_all_descs (some dt ∷ dts) = release_desc dt >> release_all_descs dts

-- What is left of a case once `result` is there: the reply and `release_all_descs`.
unfoldable pub finish : List (Option ℕ) → Option ℕ → M Answer
unfolding release_all_descs answer_result
finish dts result = do release_all_descs dts; pure (answer_result result)

-- The bitcount's range for `c` words, in a file of `len` bytes.
unfoldable pub bitcount_cmd : ℕ → List (List ℕ) → ℕ → BitcountCmd
unfolding atol c_string
bitcount_cmd c args len = record {
  key = arg args 0;
  start = if c == 2 then pos 0 else atol (arg args 1);
  end = if c == 4 then atol (arg args 2) else pos (len - 1);
}

-- `args[0][0] == 'a' || args[0][0] == 'A') && !strcasecmp(args[0], "and")`
abbrev pub is_option : ℕ → ℕ → List ℕ → List ℕ → Bool
is_option lower upper name a = (get_or a 0 0 == lower || get_or a 0 0 == upper) && same_text a name

unfoldable pub parse_option : List ℕ → Option OpOptions
unfolding same_text
parse_option a =
    if is_option b'a' b'A' (codes "and") a
    then some op_and
    else if is_option b'o' b'O' (codes "or") a
    then some op_or
    else if is_option b'x' b'X' (codes "xor") a
    then some op_xor
    else if is_option b'n' b'N' (codes "not") a
    then some op_not
    else none

-- The second word of BITOP: a destination, or a byte 5 and the name of a hook.
unfoldable pub parse_hook : List ℕ → Option OpHooks
unfolding same_text
parse_hook a =
    if not (get_or a 0 0 == 5)
    then some no_hook
    else if same_text (drop 1 a) (codes "COUNTOP")
    then some count_op
    else if same_text (drop 1 a) (codes "GETOP")
    then some get_op
    else none

abbrev pub is_not : OpOptions → Bool
is_not op_and = false
is_not op_or = false
is_not op_xor = false
is_not op_not = true

-- `if (c < 3 && c > 5)`
unfoldable pub execute_bitpos : ℕ → M Answer
execute_bitpos c = if ltb c 3 && ltb 5 c then pure args_too_many else pure no_answer

unfoldable pub execute_bitfield : ℕ → M Answer
execute_bitfield c = if ltb c 5 then pure args_too_few else pure no_answer

-- The hashes of the commands.
abbrev pub setbit_hash : ℕ
setbit_hash = 13964470052823109277

abbrev pub getbit_hash : ℕ
getbit_hash = 4534844053247176213

abbrev pub bitop_hash : ℕ
bitop_hash = 2226304069708374537

abbrev pub bitcount_hash : ℕ
bitcount_hash = 9951046379166068647

abbrev pub bitpos_hash : ℕ
bitpos_hash = 16475154490487774448

abbrev pub bitfield_hash : ℕ
bitfield_hash = 16283480983475320022
