-- ===== src/Paths/Keeps.antt =====
-- Making the directories of a key keeps the table tidy.
use solidbits.Prelude.{ℕ, length, ltb, Bool, true, false, List, none, some, if◌then◌else◌}
use solidbits.Store.{M, pure, undefined, ◌>>=◌}
use solidbits.Store.Keeps.{Keeps, keeps_rules, Keeps-bind, Keeps-pure}
use solidbits.Paths.{
  DirCheck, usable, denied, missing, check_dir, mkdir, make_level, gen_path, level_one, level_two,
  key_path, filename_size,
}

check_dir-Keeps : (path : List ℕ) → Keeps (check_dir path)
unfolding check_dir
check_dir-Keeps path = search (keeps_rules) depth 8

mkdir-Keeps : (path : List ℕ) → Keeps (mkdir path)
unfolding mkdir
mkdir-Keeps path = search (keeps_rules) depth 12

level-Keeps :
    (path : List ℕ) (r : DirCheck)
    → Keeps (elim r as (λ r. M Bool) [
      | usable ↦ pure false
      | missing ↦ mkdir path
      | denied ↦ pure true
    ])
level-Keeps path usable = Keeps-pure false
level-Keeps path missing = mkdir-Keeps path
level-Keeps path denied = Keeps-pure true

make_level-Keeps : (path : List ℕ) → Keeps (make_level path)
unfolding make_level
make_level-Keeps path = Keeps-bind _ _ (check_dir-Keeps path) (level-Keeps path)

levels-Keeps :
    (dir : List ℕ) (hash : ℕ)
    → Keeps (
        make_level (level_one dir hash) >>= λ early.
        if early
        then pure none
        else (make_level (level_two dir hash) >>= λ early'.
            if early'
            then pure none
            else if ltb filename_size (length (key_path dir hash))
            then undefined
            else pure (some (key_path dir hash))))
levels-Keeps dir hash = search (keeps_rules, make_level-Keeps) depth 12

pub gen_path-Keeps : (hash : ℕ) → Keeps (gen_path hash)
unfolding gen_path
gen_path-Keeps hash = record { at = λ s h. (levels-Keeps s.dir hash).at s h }
