-- ===== src/Prepare/Keeps.antt =====
-- Finding, opening and letting go of files keep the table tidy: no chain ever has a second entry.
use solidbits.Prelude.{
  ℕ, suc, ◌≡◌, Bool, true, false, Option, none, some, List, [], ◌∷◌, refl, sym, subst, ◌==◌, inl,
  inr, Bool-cases,
}
use solidbits.Store.{Node, absent, directory, regular, Desc, Store, M, pure, ◌>>=◌, ◌>>◌, put_node}
use solidbits.Store.Keeps.{Keeps, Tidy, keeps_rules, Keeps-bind, Keeps-pure, Keeps-option, Keeps-if}
use solidbits.Paths.Keeps.{gen_path-Keeps}
use solidbits.Table.Keeps.{Keeps-put_head, get_avalible_slot-Keeps}
use solidbits.Prepare.{
  Mode, Opened, ready, failure, not_found, fopen, is_existing, open_present, open_absent, open_node,
  open_path, open_file, Walk, found, ended, lost, walk, walk_from, touch, link, enter, after_walk,
  prepare_file, prepare_files, release_desc, existing, get_idx, set_length,
}

fopen-Keeps : (i : ℕ) (path : List ℕ) (bad : Bool) → Keeps (fopen i path bad)
unfolding fopen
fopen-Keeps i path bad = search (keeps_rules) depth 12

-- What the three outcomes of an opening lead to.
pub Keeps-opened :
    {B : Type 0} (r : Opened) (f : ℕ → M B) (m n : M B)
    → ((i : ℕ) → Keeps (f i))
    → Keeps m
    → Keeps n
    → Keeps (elim r as (λ r. M B) [ ready i ↦ f i | failure ↦ m | not_found ↦ n ])
Keeps-opened (ready i) f m n kf km kn = kf i
Keeps-opened failure f m n kf km kn = km
Keeps-opened not_found f m n kf km kn = kn

open_present-Keeps : (i : ℕ) (path bs : List ℕ) (mode : Mode) → Keeps (open_present i path bs mode)
unfolding open_present
open_present-Keeps i path bs mode =
    Keeps-bind _ _ (fopen-Keeps i path false)
      λ r. Keeps-opened r _ _ _ (λ i. search (keeps_rules) depth 12) (Keeps-pure _) (Keeps-pure _)

create-Keeps :
    (i : ℕ) (path : List ℕ) (is_dir : Bool)
    → Keeps (
        fopen i path is_dir >>= λ r. elim r [
          | failure ↦ pure failure
          | not_found ↦ pure failure
          | ready i ↦ do put_node path (regular []); set_length i 0; pure (ready i)
        ])
create-Keeps i path is_dir =
    Keeps-bind _ _ (fopen-Keeps i path is_dir)
      λ r. Keeps-opened r _ _ _ (λ i. search (keeps_rules) depth 12) (Keeps-pure _) (Keeps-pure _)

open_absent-Keeps :
    (i : ℕ) (path : List ℕ) (is_dir : Bool) (mode : Mode) → Keeps (open_absent i path is_dir mode)
unfolding open_absent
open_absent-Keeps i path is_dir mode =
    Keeps-if (is_existing mode) _ _ (Keeps-pure not_found) (create-Keeps i path is_dir)

open_node-Keeps : (i : ℕ) (path : List ℕ) (mode : Mode) (n : Node) → Keeps (open_node i path mode n)
unfolding open_node
open_node-Keeps i path mode absent = open_absent-Keeps i path false mode
open_node-Keeps i path mode (directory a) = open_absent-Keeps i path true mode
open_node-Keeps i path mode (regular bs) = open_present-Keeps i path bs mode

get_idx-Keeps : Keeps get_idx
get_idx-Keeps = record { at = λ s h. h }

open_path-Keeps : (i : ℕ) (path : List ℕ) (mode : Mode) → Keeps (open_path i path mode)
unfolding open_path
open_path-Keeps i path mode = search (keeps_rules, open_absent-Keeps, open_node-Keeps) depth 14

open_named-Keeps :
    (mode : Mode) (path : Option (List ℕ))
    → Keeps (elim path as (λ o. M Opened) [
      | none ↦ pure failure
      | some filename ↦ do i ← get_idx; open_path i filename mode
    ])
open_named-Keeps mode none = Keeps-pure failure
open_named-Keeps mode (some filename) =
    search (keeps_rules, get_idx-Keeps, open_path-Keeps) depth 10

open_file-Keeps : (hash : ℕ) (mode : Mode) → Keeps (open_file hash mode)
unfolding open_file
open_file-Keeps hash mode = Keeps-bind _ _ get_avalible_slot-Keeps λ slot.
    Keeps-option slot _ _ (Keeps-pure _)
      (λ i. Keeps-bind _ _ (gen_path-Keeps hash) (open_named-Keeps mode))

touch-Keeps : (i : ℕ) → Keeps (touch i)
unfolding touch
touch-Keeps i = search (keeps_rules) depth 12

link-Keeps : (id : ℕ) (tmp : Option ℕ) (new : ℕ) → Keeps (link id tmp 0 new)
unfolding link
link-Keeps id none new = Keeps-put_head id (some new)
link-Keeps id (some tmp) new = Keeps-put_head id (some new)

enter-Keeps : (hash : ℕ) (mode : Mode) (tmp : Option ℕ) → Keeps (enter hash mode tmp 0)
unfolding enter
enter-Keeps hash mode tmp = Keeps-bind _ _ (open_file-Keeps hash mode) λ r.
    Keeps-opened r _ _ _ (λ new. search (keeps_rules, link-Keeps) depth 14) (Keeps-pure _)
      (Keeps-pure _)

-- A walk that has taken no step.
abbrev pub TakesNoStep : Walk → Type 0
TakesNoStep (found i) = Unit
TakesNoStep (ended tmp depth) = depth ≡ 0
TakesNoStep lost = ⊥

walk_from-TakesNoStep :
    (fuel : ℕ) (descs : ℕ → Desc) (hash tmp : ℕ)
    → (descs tmp).next ≡ none
    → TakesNoStep (walk_from (suc fuel) descs hash 0 tmp)
unfolding walk_from
walk_from-TakesNoStep fuel descs hash tmp h = elim (Bool-cases ((descs tmp).hash == hash)) [
  | inl e ↦ rw e tt
  | inr e ↦ rw (e, h) refl
]

-- In a tidy table a walk is at its end at once.
pub walk-TakesNoStep :
    (s : Store) (hash : ℕ) (head : Option ℕ) → Tidy s → TakesNoStep (walk s.descs hash head)
unfolding walk
walk-TakesNoStep s hash none h = refl
walk-TakesNoStep s hash (some tmp) h = walk_from-TakesNoStep 8191 s.descs hash tmp (h.alone tmp).0

after_walk-Keeps :
    (hash : ℕ) (mode : Mode) (w : Walk) → TakesNoStep w → Keeps (after_walk hash mode w)
unfolding after_walk
after_walk-Keeps hash mode (found i) h = touch-Keeps i
after_walk-Keeps hash mode (ended tmp depth) h =
    subst (λ n. Keeps (enter hash mode tmp n)) (sym h) (enter-Keeps hash mode tmp)
after_walk-Keeps hash mode lost h = absurd h

module _ (xxh64 : List ℕ → ℕ) where
  pub prepare_file-Keeps : (key : List ℕ) (mode : Mode) → Keeps (prepare_file xxh64 key mode)
  unfolding prepare_file
  prepare_file-Keeps key mode = record {
    at = λ s h. (after_walk-Keeps (xxh64 key) mode _ (walk-TakesNoStep s (xxh64 key) _ h)).at s h;
  }

  pub prepare_files-Keeps : (keys : List (List ℕ)) → Keeps (prepare_files xxh64 keys)
  unfolding prepare_files
  prepare_files-Keeps [] = Keeps-pure (some [])
  prepare_files-Keeps (key ∷ keys) = Keeps-bind _ _ (prepare_files-Keeps keys) λ later.
      Keeps-option later _ _ (Keeps-pure _)
        (λ rest. search (keeps_rules, prepare_file-Keeps key existing) depth 8)

pub release_desc-Keeps : (dt : ℕ) → Keeps (release_desc dt)
unfolding release_desc
release_desc-Keeps dt = search (keeps_rules) depth 8
