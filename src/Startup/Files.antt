-- ===== src/Startup/Files.antt =====
-- src/helper.c, `check_file` and `write_pid`.
use solidbits.Prelude.{
  ℕ, Bool, true, false, ◌||◌, Option, none, some, List, [], ◌∷◌, ◌==◌, if◌then◌else◌,
}
use solidbits.Store.{
  Node, absent, directory, regular, M, pure, ◌>>=◌, get_node, put_node, next_fault,
}
use solidbits.Stdio.{failed, transferred}
use solidbits.Paths.{DirCheck, usable, denied, missing, check_dir}
use solidbits.Parser.Number.{decimal_line}

abbrev pub reverse_onto : List ℕ → List ℕ → List ℕ
reverse_onto [] acc = acc
reverse_onto (c ∷ cs) acc = reverse_onto cs (c ∷ acc)

abbrev pub drop_slashes : List ℕ → List ℕ
drop_slashes [] = []
drop_slashes (c ∷ cs) = if c == b'/' then drop_slashes cs else c ∷ cs

abbrev pub drop_name : List ℕ → List ℕ
drop_name [] = []
drop_name (c ∷ cs) = if c == b'/' then c ∷ cs else drop_name cs

abbrev pub is_absolute : List ℕ → Bool
is_absolute [] = false
is_absolute (c ∷ cs) = c == b'/'

-- What is left of a path, given from its end on, or else the root or the current directory.
abbrev pub directory_or : Bool → List ℕ → List ℕ
directory_or root [] = if root then b'/' ∷ [] else b'.' ∷ []
directory_or root (c ∷ cs) = reverse_onto (c ∷ cs) []

-- `dirname` of libgen.h.
unfoldable pub dirname : List ℕ → List ℕ
dirname path =
    directory_or (is_absolute path) (drop_slashes (drop_name (drop_slashes (reverse_onto path []))))

-- The 0, 1, -1 and -2 of `check_file`.
pub data FileCheck : Type 0 where
  writable : FileCheck
  creatable : FileCheck
  refused : FileCheck
  no_directory : FileCheck

-- `check_file(path) < 0`
abbrev pub is_negative : FileCheck → Bool
is_negative writable = false
is_negative creatable = false
is_negative refused = true
is_negative no_directory = true

abbrev pub of_directory : DirCheck → FileCheck
of_directory usable = creatable
of_directory denied = refused
of_directory missing = no_directory

-- `S_ISREG`
abbrev pub is_regular : Node → Bool
is_regular absent = false
is_regular (directory a) = false
is_regular (regular bs) = true

abbrev pub is_directory : Node → Bool
is_directory absent = false
is_directory (directory a) = true
is_directory (regular bs) = false

-- `access` tells whether a regular file can be read and written.
unfoldable pub check_file : (List ℕ → Bool) → List ℕ → M FileCheck
unfolding check_dir dirname
check_file access path = do
  n ← get_node path
  if is_regular n
      then pure (if access path then writable else refused)
      else (check_dir (dirname path) >>= λ a. pure (of_directory a))

-- With no path, `fopen(NULL, "w")` fails in the GNU C library. A short write is not noticed.
unfoldable pub write_pid : Option (List ℕ) → ℕ → M (Unit {0})
unfolding next_fault decimal_line
write_pid none id = pure tt
write_pid (some path) id = do
  n ← get_node path
  fault ← next_fault
  if is_directory n || failed fault
      then pure tt
      else (next_fault >>= λ short. put_node path (regular (transferred short (decimal_line id))))
