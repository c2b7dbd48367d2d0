-- ===== src/Prepare.antt =====
-- src/file.c: finding or opening the descriptor of a key, and letting it go. `xxh64` is the hash
-- function of the xxHash library.
pub mod Collision
pub mod Opening
pub mod Lookup
pub mod Keeps
pub mod Open
pub mod Slot
pub mod Fresh
pub mod Missing
pub mod Stale
use solidbits.Prelude.{
  ℕ, zero, suc, ◌+◌, ◌*◌, ◌%◌, Bool, true, false, Option, none, some, List, [], ◌∷◌, length, ltb,
  ◌==◌, ◌&&◌, ◌||◌, if◌then◌else◌,
}
use solidbits.Prelude.Int.{ℤ, pos, ◌+ℤ◌, ◌-ℤ◌}
use solidbits.Store.{
  Node, absent, directory, regular, Stream, Desc, Store, M, pure, undefined, ◌>>=◌, ◌>>◌, get_desc,
  put_desc, get_node, put_node, next_fault, get_us,
}
use solidbits.Stdio.{failed}
use solidbits.Paths.{gen_path, filename_size}
use solidbits.Table.{
  desc_table_size, desc_hash_table_size, put_head, get_head, get_avalible_slot, close_file,
}

-- The `mode` argument: 0, 1 and 2.
pub data Mode : Type 0 where
  create : Mode
  existing : Mode
  truncate : Mode

-- What `open_file` and `prepare_file` return: a descriptor, -1 or -2.
pub data Opened : Type 0 where
  ready : ℕ → Opened
  failure : Opened
  not_found : Opened

abbrev pub get_idx : M ℕ
get_idx s = some (s.idx, s)

abbrev pub fresh : List ℕ → Stream
fresh path = record { path = path; pos = 0; error = false }

abbrev pub is_truncate : Mode → Bool
is_truncate create = false
is_truncate existing = false
is_truncate truncate = true

abbrev pub is_existing : Mode → Bool
is_existing create = false
is_existing existing = true
is_existing truncate = false

-- `descs[idx].fd.glibc = fopen(filename, …)`, which stores NULL if it fails.
unfoldable pub fopen : ℕ → List ℕ → Bool → M Opened
unfolding next_fault
fopen i path bad = do
  fault ← next_fault
  d ← get_desc i
  if bad || failed fault
      then (put_desc i (record d { fd = none }) >> pure failure)
      else (put_desc i (record d { fd = some (fresh path) }) >> pure (ready i))

abbrev pub set_length : ℕ → ℕ → M (Unit {0})
set_length i n = do d ← get_desc i; put_desc i (record d { length = n })

-- The branch for a file that exists; `st_size` was taken before `fopen` may truncate.
unfoldable pub open_present : ℕ → List ℕ → List ℕ → Mode → M Opened
unfolding fopen
open_present i path bs mode = do
  r ← fopen i path false
  elim r [
    | failure ↦ pure failure
    | not_found ↦ pure failure
    | ready i ↦ do
      if is_truncate mode then put_node path (regular []) else pure tt
      set_length i (length bs)
      pure (ready i)
  ]

-- The branch for anything else; `fopen(filename, "w+")` cannot open a directory.
unfoldable pub open_absent : ℕ → List ℕ → Bool → Mode → M Opened
unfolding fopen
open_absent i path is_dir mode =
    if is_existing mode
    then pure not_found
    else (fopen i path is_dir >>= λ r. elim r [
      | failure ↦ pure failure
      | not_found ↦ pure failure
      | ready i ↦ do put_node path (regular []); set_length i 0; pure (ready i)
    ])

unfoldable pub open_node : ℕ → List ℕ → Mode → Node → M Opened
unfolding open_present open_absent
open_node i path mode absent = open_absent i path false mode
open_node i path mode (directory a) = open_absent i path true mode
open_node i path mode (regular bs) = open_present i path bs mode

abbrev pub is_directory : Node → Bool
is_directory absent = false
is_directory (directory a) = true
is_directory (regular bs) = false

-- From `stat` on. If it fails, whatever the reason, the file counts as missing. A text that fills
-- `filename` has no null byte at its end.
unfoldable pub open_path : ℕ → List ℕ → Mode → M Opened
unfolding open_node open_absent next_fault
open_path i filename mode =
    if ltb (length filename) filename_size
    then (next_fault >>= λ fault. get_node filename >>= λ node.
        if failed fault
        then open_absent i filename (is_directory node) mode
        else open_node i filename mode node)
    else undefined

-- `get_avalible_slot` only tells whether there is a slot; the file goes to `descs[idx]`.
unfoldable pub open_file : ℕ → Mode → M Opened
unfolding open_path get_avalible_slot gen_path
open_file hash mode = do
  slot ← get_avalible_slot
  elim slot [
    | none ↦ pure failure
    | some _ ↦ do
      path ← gen_path hash
      elim path [ none ↦ pure failure | some filename ↦ do i ← get_idx; open_path i filename mode ]
  ]

-- Where the walk along a chain stops: at the entry of the hash, or at the last entry, if there is one,
-- after `depth` steps.
pub data Walk : Type 0 where
  found : ℕ → Walk
  ended : Option ℕ → ℕ → Walk
  lost : Walk

-- The walk from an entry, with fuel; `lost` means that the fuel has run out.
unfoldable pub walk_from : ℕ → (ℕ → Desc) → ℕ → ℕ → ℕ → Walk
walk_from zero descs hash depth tmp = lost
walk_from (suc fuel) descs hash depth tmp =
    let further = λ (n : ℕ). walk_from fuel descs hash (depth + 1) n in
    if (descs tmp).hash == hash
    then found tmp
    else elim (descs tmp).next [ none ↦ ended (some tmp) depth | some n ↦ further n ]

unfoldable pub walk : (ℕ → Desc) → ℕ → Option ℕ → Walk
unfolding walk_from
walk descs hash none = ended none 0
walk descs hash (some tmp) = walk_from desc_table_size descs hash 0 tmp

-- The hit: count the reference and the access.
unfoldable pub touch : ℕ → M Opened
unfolding ◌+ℤ◌ get_us
touch i = do
  t ← get_us
  d ← get_desc i
  put_desc i
      (record d { refs = d.refs +ℤ pos 1; access_times = d.access_times + 1; last_access = t })
  pure (ready i)

-- `if (depth) { tmp->next = new; new->prev = tmp; } else XXTABLE[id] = new;`
unfoldable pub link : ℕ → Option ℕ → ℕ → ℕ → M (Unit {0})
link id none depth new = put_head id (some new)
link id (some tmp) depth new = if depth == 0 then put_head id (some new) else do
  e ← get_desc tmp
  put_desc tmp (record e { next = some new })
  d ← get_desc new
  put_desc new (record d { prev = some tmp })

-- The miss: open the file and enter it into the table.
unfoldable pub enter : ℕ → Mode → Option ℕ → ℕ → M Opened
unfolding open_file link get_us
enter hash mode tmp depth = do
  r ← open_file hash mode
  elim r [
    | failure ↦ pure failure
    | not_found ↦ pure not_found
    | ready new ↦ do
      t ← get_us
      d ← get_desc new
      put_desc new (record d {
        hash = hash;
        created_at = t;
        last_access = t;
        access_times = 1;
        refs = pos 1;
      })
      link (hash % desc_hash_table_size) tmp depth new
      pure (ready new)
  ]

unfoldable pub after_walk : ℕ → Mode → Walk → M Opened
unfolding touch enter
after_walk hash mode (found i) = touch i
after_walk hash mode (ended tmp depth) = enter hash mode tmp depth
after_walk hash mode lost = undefined

abbrev get_descs : M (ℕ → Desc)
get_descs s = some (s.descs, s)

module _ (xxh64 : List ℕ → ℕ) where
  -- `prepare_file`: `ready` is a return of 0 with the descriptor in `*dt`.
  unfoldable pub prepare_file : List ℕ → Mode → M Opened
  unfolding after_walk walk
  prepare_file key mode = do
    let hash = xxh64 key
    head ← get_head (hash % desc_hash_table_size)
    descs ← get_descs
    after_walk hash mode (walk descs hash head)

  -- What `prepare_files` makes of one result, with the later keys' descriptors at hand.
  abbrev pub collect : List (Option ℕ) → Opened → Option (List (Option ℕ))
  collect rest (ready i) = some (some i ∷ rest)
  collect rest not_found = some (none ∷ rest)
  collect rest failure = none

  -- `prepare_files`, from the last key to the first: `none` is -1. A key with no file gets NULL.
  unfoldable pub prepare_files : List (List ℕ) → M (Option (List (Option ℕ)))
  unfolding prepare_file
  prepare_files [] = pure (some [])
  prepare_files (key ∷ keys) = do
    later ← prepare_files keys
    elim later [
      | none ↦ pure none
      | some rest ↦ do r ← prepare_file key existing; pure (collect rest r)
    ]

unfoldable pub release_desc : ℕ → M (Unit {0})
unfolding ◌-ℤ◌
release_desc dt = do d ← get_desc dt; put_desc dt (record d { refs = d.refs -ℤ pos 1 })

-- `close_files` from slot `i`, with `left` slots to go.
unfoldable pub close_from : ℕ → ℕ → M (Unit {0})
unfolding close_file
close_from zero i = pure tt
close_from (suc left) i =
    let rest = close_from left (i + 1) in
    do d ← get_desc i; if d.hash == 0 then rest else (close_file i >> rest)

unfoldable pub close_files : M (Unit {0})
unfolding close_from
close_files = close_from desc_table_size 0
