-- ===== src/Store.antt =====
-- The state that src/file.c keeps (`descs`, `XXTABLE`, `idx`), the structures of src/solidbits.h that
-- it is made of, and what stands outside the program: the files, the clock, and which calls of the C
-- library fail. `none` in `M` is behaviour that C leaves undefined, such as a use of a NULL stream.
pub mod Paths
pub mod Keys
pub mod Keeps
pub mod Quiet
use solidbits.Prelude.{
  ℕ, ◌+◌, ◌<◌, ◌≡◌, Bool, true, false, Option, none, some, List, [], ◌∷◌, ◌++◌, take, drop, length,
  replicate, ◌==◌, ◌&&◌, if◌then◌else◌,
}
use solidbits.Prelude.Int.{ℤ}

-- What a path leads to; a directory is marked with whether it can be read and written.
pub data Node : Type 0 where
  absent : Node
  directory : Bool → Node
  regular : List ℕ → Node

-- `FILE`. The error indicator stays set once it is: nothing in the program calls `clearerr`.
pub record Stream : Type 0 where
  pub path : List ℕ
  pub pos : ℕ
  pub error : Bool

-- `struct desc_table`. Pointers to other entries are indices into `descs`; `fd` is the union's
-- `glibc` member, `none` for NULL. The mutex is held for the whole of an operation.
pub record Desc : Type 0 where
  pub hash : ℕ
  pub fd : Option Stream
  pub length : ℕ
  pub last_access : ℕ
  pub access_times : ℕ
  pub created_at : ℕ
  pub refs : ℤ
  pub next : Option ℕ
  pub prev : Option ℕ

-- A member of `faults` answers one call that can fail: `none` lets it succeed, `some k` makes it fail
-- after `k` bytes. When the list is used up, no call fails. `times` are the readings of the clock.
pub record Store : Type 0 where
  pub descs : ℕ → Desc
  pub xxtable : ℕ → Option ℕ
  pub idx : ℕ
  pub dir : List ℕ
  pub disk : List ℕ → Node
  pub faults : List (Option ℕ)
  pub times : List ℕ

abbrev pub M : Type 0 → Type 0
M A = Store → Option (A × Store)

abbrev pub pure : {A : Type 0} → A → M A
pure a s = some (a, s)

infixl 5 ◌>>=◌ ◌>>◌
abbrev pub ◌>>=◌ : {A B : Type 0} → M A → (A → M B) → M B
◌>>=◌ m f s = elim (m s) [ none ↦ none | some (a, t) ↦ f a t ]

abbrev pub ◌>>◌ : {B : Type 0} → M (Unit {0}) → M B → M B
m >> k = m >>= λ _. k

abbrev pub undefined : {A : Type 0} → M A
undefined s = none

abbrev pub bytes_eq : List ℕ → List ℕ → Bool
bytes_eq [] [] = true
bytes_eq [] (y ∷ ys) = false
bytes_eq (x ∷ xs) [] = false
bytes_eq (x ∷ xs) (y ∷ ys) = x == y && bytes_eq xs ys

abbrev pub update : {A : Type 0} → (ℕ → A) → ℕ → A → ℕ → A
update f i v j = if i == j then v else f j

abbrev pub update_disk : (List ℕ → Node) → List ℕ → Node → List ℕ → Node
update_disk f p v q = if bytes_eq p q then v else f q

unfoldable pub next_fault : M (Option ℕ)
next_fault s = elim s.faults [ [] ↦ some (none, s) | f ∷ fs ↦ some (f, record s { faults = fs }) ]

abbrev pub get_desc : ℕ → M Desc
get_desc i s = some (s.descs i, s)

abbrev pub put_desc : ℕ → Desc → M (Unit {0})
put_desc i d s = some (tt, record s { descs = update s.descs i d })

abbrev pub put_node : List ℕ → Node → M (Unit {0})
put_node p n s = some (tt, record s { disk = update_disk s.disk p n })

abbrev pub get_node : List ℕ → M Node
get_node p s = some (s.disk p, s)

-- src/helper.c, `get_us`.
unfoldable pub get_us : M ℕ
get_us s = elim s.times [ [] ↦ some (0, s) | t ∷ ts ↦ some (t, record s { times = ts }) ]

-- The bytes of a regular file.
abbrev pub node_bytes : Node → List ℕ
node_bytes absent = []
node_bytes (directory a) = []
node_bytes (regular bs) = bs

-- A write at an offset past the end fills the gap with zeros; a write of nothing changes nothing.
unfoldable pub overwrite : List ℕ → ℕ → List ℕ → List ℕ
overwrite bs offset [] = bs
overwrite bs offset (x ∷ xs) =
    take offset (bs ++ replicate offset 0) ++ ((x ∷ xs) ++ drop (offset + length (x ∷ xs)) bs)
