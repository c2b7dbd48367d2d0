-- ===== src/Paths/Made.antt =====
-- The directories of a key are made where they are missing.
use solidbits.Prelude.{
  Bool-cases, ℕ, ◌≡◌, ◌≢◌, ◌⊎◌, refl, sym, ap, subst, Bool, ◌∙◌, inl, inr, true, false, some, List,
  [], length, ltb, ltb-false, ◌≤◌, arith,
}
use solidbits.Store.{Node, absent, directory, regular, M, Store, update_disk, bytes_eq, ◌>>=◌, pure}
use solidbits.Store.Quiet.{next_quiet}
use solidbits.Store.Paths.{update_disk_same, update_disk_self, update_disk_ne}
use solidbits.Paths.{
  DirCheck, usable, denied, missing, node_check, check_dir, mkdir, make_level, gen_path, level_one,
  level_two, key_path, filename_size,
}
use solidbits.Paths.Lengths.{length-level_one, length-level_two, length-key_path}

-- Nothing stands there, or a directory that can be used.
abbrev pub CanBeDir : Node → Type 0
CanBeDir n = (n ≡ absent) ⊎ (n ≡ directory true)

abbrev pub made : Store → List ℕ → Store
made s path = record s { disk = update_disk s.disk path (directory true) }

-- `make_level` from the result of its `check_dir`.
abbrev level_from : List ℕ → DirCheck → M Bool
level_from path usable = pure false
level_from path missing = mkdir path
level_from path denied = pure true

level_from_lem :
    (s : Store) (path : List ℕ) (n : Node)
    → s.disk path ≡ n
    → make_level path s ≡ level_from path (node_check n) s
unfolding make_level check_dir
level_from_lem s path absent e = ap (λ n. level_from path (node_check n) s) e
level_from_lem s path (directory true) e = ap (λ n. level_from path (node_check n) s) e
level_from_lem s path (directory false) e = ap (λ n. level_from path (node_check n) s) e
level_from_lem s path (regular bs) e = ap (λ n. level_from path (node_check n) s) e

mkdir_lem :
    (s : Store) (path : List ℕ)
    → s.faults ≡ []
    → s.disk path ≡ absent
    → mkdir path s ≡ some (false, made s path)
unfolding mkdir
mkdir_lem s path q e = rw (next_quiet s q, ◌>>=◌, e) refl

make_level_lem :
    (s : Store) (path : List ℕ)
    → s.faults ≡ []
    → CanBeDir (s.disk path)
    → make_level path s ≡ some (false, made s path)
make_level_lem s path q (inl e) = level_from_lem s path absent e ∙ mkdir_lem s path q e
make_level_lem s path q (inr e) =
    level_from_lem s path (directory true) e
    ∙ ap (λ d. some (false, record s { disk = d }))
        (update_disk_same s.disk path (directory true) e)

-- The store when both directories are there.
abbrev pub both_made : Store → ℕ → Store
both_made s hash = made (made s (level_one s.dir hash)) (level_two s.dir hash)

level_one-ne : (dir : List ℕ) (hash : ℕ) → level_one dir hash ≢ level_two dir hash
level_one-ne dir hash e =
    omega (arith, ap length e, length-level_one dir hash, length-level_two dir hash)

pub gen_path_lem :
    (s : Store) (hash : ℕ)
    → s.faults ≡ []
    → length s.dir ≤ 236
    → CanBeDir (s.disk (level_one s.dir hash))
    → CanBeDir (s.disk (level_two s.dir hash))
    → gen_path hash s ≡ some (some (key_path s.dir hash), both_made s hash)
unfolding gen_path
gen_path_lem s hash q short one two =
    let fits : ltb filename_size (length (key_path s.dir hash)) ≡ false =
      ltb-false _ _ (omega (arith, length-key_path s.dir hash)) in
    let l1 : List ℕ = level_one s.dir hash in
    let l2 : List ℕ = level_two s.dir hash in
    let two' : CanBeDir ((made s l1).disk l2) =
      subst CanBeDir (sym (update_disk_ne s.disk l1 l2 _ (level_one-ne s.dir hash))) two in
    rw (make_level_lem s l1 q one, ◌>>=◌, make_level_lem (made s l1) l2 q two', fits) refl

-- They are not in the way of the file.
pub both_made_file :
    (s : Store) (hash : ℕ)
    → (both_made s hash).disk (key_path s.dir hash) ≡ s.disk (key_path s.dir hash)
both_made_file s hash =
    update_disk_ne (made s (level_one s.dir hash)).disk (level_two s.dir hash) (key_path s.dir hash)
      _ (λ e. omega (arith, ap length e, length-key_path s.dir hash, length-level_two s.dir hash))
    ∙ update_disk_ne s.disk (level_one s.dir hash) (key_path s.dir hash) _
        (λ e. omega (arith, ap length e, length-key_path s.dir hash, length-level_one s.dir hash))

pub both_made_other :
    (s : Store) (hash : ℕ) (q : List ℕ)
    → level_one s.dir hash ≢ q
    → level_two s.dir hash ≢ q
    → (both_made s hash).disk q ≡ s.disk q
both_made_other s hash q n1 n2 =
    update_disk_ne (made s (level_one s.dir hash)).disk (level_two s.dir hash) q (directory true) n2
    ∙ update_disk_ne s.disk (level_one s.dir hash) q (directory true) n1

-- What can be a directory still can.
made_dirs : (s : Store) (path q : List ℕ) → CanBeDir (s.disk q) → CanBeDir ((made s path).disk q)
made_dirs s path q h = elim (Bool-cases (bytes_eq path q)) [
  | inl e ↦ rw e (inr refl)
  | inr e ↦ rw e h
]

pub both_made_dirs :
    (s : Store) (hash : ℕ) (q : List ℕ) → CanBeDir (s.disk q) → CanBeDir ((both_made s hash).disk q)
both_made_dirs s hash q h =
    made_dirs (made s (level_one s.dir hash)) (level_two s.dir hash) q
      (made_dirs s (level_one s.dir hash) q h)

-- And both are there.
pub both_made_one :
    (s : Store) (hash : ℕ) → (both_made s hash).disk (level_one s.dir hash) ≡ directory true
both_made_one s hash =
    update_disk_ne (made s (level_one s.dir hash)).disk (level_two s.dir hash)
      (level_one s.dir hash) (directory true) (λ e. level_one-ne s.dir hash (sym e))
    ∙ update_disk_self s.disk (level_one s.dir hash) (directory true)

pub both_made_two :
    (s : Store) (hash : ℕ) → (both_made s hash).disk (level_two s.dir hash) ≡ directory true
both_made_two s hash =
    update_disk_self (made s (level_one s.dir hash)).disk (level_two s.dir hash) (directory true)
