-- ===== src/Prepare/Open.antt =====
-- Opening the file of a key where no call fails.
use solidbits.Prelude.{◌<◌, length, lt→ltb, ℕ, ◌≡◌, refl, false, sym, subst, some, List, []}
use solidbits.Store.{Node, absent, directory, regular, Store}
use solidbits.Popcount.Spec.{AreBytes}
use solidbits.Prepare.{
  Mode, create, existing, truncate, ready, is_truncate, is_existing, open_node, open_path,
}
use solidbits.Paths.{filename_size}
use solidbits.Prepare.Opening.{OpenedAt, open_present-Holds, open_absent-Holds}

-- What a path leads to gives these bytes once it is opened: a file, or nothing and no bytes.
abbrev pub Gives : Node → List ℕ → Type 0
Gives absent bs = bs ≡ []
Gives (directory a) bs = ⊥
Gives (regular cs) bs = cs ≡ bs

-- The modes that leave a file as it is; the one that creates none needs it to be there.
abbrev pub CanStart : Mode → Node → Type 0
CanStart create n = Unit
CanStart existing absent = ⊥
CanStart existing (directory a) = ⊥
CanStart existing (regular cs) = Unit
CanStart truncate n = ⊥

CanStart-keeps : (mode : Mode) (n : Node) → CanStart mode n → is_truncate mode ≡ false
CanStart-keeps create n h = refl
CanStart-keeps existing n h = refl
CanStart-keeps truncate n h = absurd h

CanStart-creates : (mode : Mode) → CanStart mode absent → is_existing mode ≡ false
CanStart-creates create h = refl
CanStart-creates existing h = absurd h
CanStart-creates truncate h = absurd h

pub open_node_lem :
    (s : Store) (i : ℕ) (path bs : List ℕ) (mode : Mode) (n : Node)
    → CanStart mode n
    → s.faults ≡ []
    → s.disk path ≡ n
    → Gives n bs
    → AreBytes bs
    → (t : Store) × (open_node i path mode n s ≡ some (ready i, t)) × OpenedAt s t i path bs
unfolding open_node
open_node_lem s i path bs mode absent m q e g b =
    let (t, run, o) = open_absent-Holds s i path mode (CanStart-creates mode m) q in
    (t, run, subst (OpenedAt s t i path) (sym g) o)
open_node_lem s i path bs mode (directory a) m q e g b = absurd g
open_node_lem s i path bs mode (regular cs) m q e g b =
    let (t, run, o) =
      open_present-Holds s i path cs mode (CanStart-keeps mode (regular cs) m) q e
        (subst AreBytes (sym g) b) in
    (t, run, subst (OpenedAt s t i path) g o)

-- Where no call fails, `open_file` goes by what stands at the path.
pub open_path_lem :
    (s : Store) (i : ℕ) (path : List ℕ) (mode : Mode)
    → s.faults ≡ []
    → length path < filename_size
    → open_path i path mode s ≡ open_node i path mode (s.disk path) s
unfolding open_path
open_path_lem s i path mode q fits = rw (lt→ltb _ _ fits, q) refl
