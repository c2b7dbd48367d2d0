-- ===== src/Paths.antt =====
-- src/helper.c, `check_dir` and `gen_path`: where the file of a key is, two directories deep, and the
-- directories that are made on the way.
pub mod Hex
pub mod Keeps
pub mod Lengths
pub mod Made
use solidbits.Prelude.{
  ℕ, zero, suc, ◌+◌, ◌/◌, ◌%◌, Bool, true, false, Option, none, some, List, [], ◌∷◌, ◌++◌, take,
  drop, length, ltb, if◌then◌else◌,
}
use solidbits.Store.{
  Node, absent, directory, regular, Store, M, pure, undefined, ◌>>=◌, ◌>>◌, get_node, put_node,
  next_fault,
}
use solidbits.Stdio.{failed}

-- The 0, -1 and -2 of `check_dir`.
pub data DirCheck : Type 0 where
  usable : DirCheck
  denied : DirCheck
  missing : DirCheck

abbrev pub node_check : Node → DirCheck
node_check absent = missing
node_check (regular bs) = missing
node_check (directory true) = usable
node_check (directory false) = denied

unfoldable pub check_dir : List ℕ → M DirCheck
check_dir path = do n ← get_node path; pure (node_check n)

-- `mkdir(path, 0755)`: whether it failed. It fails where something stands already.
abbrev pub is_absent : Node → Bool
is_absent absent = true
is_absent (directory a) = false
is_absent (regular bs) = false

unfoldable pub mkdir : List ℕ → M Bool
unfolding next_fault
mkdir path = do
  n ← get_node path
  fault ← next_fault
  if failed fault
      then pure true
      else if is_absent n
      then (put_node path (directory true) >> pure false)
      else pure true

-- One level of `gen_path`: whether it returned early.
unfoldable pub make_level : List ℕ → M Bool
unfolding check_dir mkdir
make_level path = do
  r ← check_dir path
  elim r [ usable ↦ pure false | missing ↦ mkdir path | denied ↦ pure true ]

-- `snprintf(hex, 17, "%016llx", hash)`
unfoldable pub hex_digit : ℕ → ℕ
hex_digit d = if ltb d 10 then b'0' + d else 87 + d

unfoldable pub hex_digits : ℕ → ℕ → List ℕ
unfolding hex_digit
hex_digits zero n = []
hex_digits (suc k) n = hex_digits k (n / 16) ++ hex_digit (n % 16) ∷ []

abbrev pub level_one : List ℕ → ℕ → List ℕ
level_one dir hash = dir ++ (b'/' ∷ take 2 (hex_digits 16 hash))

abbrev pub level_two : List ℕ → ℕ → List ℕ
level_two dir hash = level_one dir hash ++ (b'/' ∷ take 2 (drop 2 (hex_digits 16 hash)))

-- What `gen_path` leaves in `path` when it returns 0.
abbrev pub key_path : List ℕ → ℕ → List ℕ
key_path dir hash = level_two dir hash ++ (b'/' ∷ drop 4 (hex_digits 16 hash))

-- `char filename[256]` of `open_file`.
abbrev pub filename_size : ℕ
filename_size = 256

abbrev get_dir : M (List ℕ)
get_dir s = some (s.dir, s)

-- `none` is any of its error codes; the caller only logs which. `path` has 256 bytes, all zero before:
-- a longer text is written past its end.
unfoldable pub gen_path : ℕ → M (Option (List ℕ))
unfolding make_level hex_digits
gen_path hash = do
  dir ← get_dir
  early ← make_level (level_one dir hash)
  if early
      then pure none
      else (make_level (level_two dir hash) >>= λ early'.
          if early'
          then pure none
          else if ltb filename_size (length (key_path dir hash))
          then undefined
          else pure (some (key_path dir hash)))
