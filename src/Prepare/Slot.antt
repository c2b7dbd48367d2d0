-- ===== src/Prepare/Slot.antt =====
-- What a key needs to be opened, and the free slot that it then gets.
use solidbits.Prelude.{ℕ, ◌+◌, ◌-◌, ◌≡◌, ◌≤◌, ◌<◌, refl, none, some, List, [], length, arith}
use solidbits.Store.{Desc, Store, ◌>>=◌}
use solidbits.Store.Quiet.{get_us_lem}
use solidbits.Popcount.Spec.{AreBytes}
use solidbits.Paths.{level_one, level_two, key_path}
use solidbits.Paths.Made.{CanBeDir}
use solidbits.Table.{desc_table_size, Scan, free_slot, full, take_slot, get_avalible_slot}
use solidbits.Table.Oldest.{Chosen, UsedBefore, scan_slots_lem}
use solidbits.Prepare.Open.{Gives}

-- A slot from `idx` on is free, no call fails, the path of the key fits in `filename` with a null byte,
-- the directories of the key are there or can be made, and its file has these bytes, or there is none and there are no bytes.
pub record CanOpen (s : Store) (hash : ℕ) (bs : List ℕ) : Type 0 where
  pub slot : (k : ℕ) × (s.idx ≤ k) × (k < 8192) × ((s.descs k).hash ≡ 0)
  pub quiet : s.faults ≡ []
  pub short : length s.dir ≤ 236
  pub one : CanBeDir (s.disk (level_one s.dir hash))
  pub two : CanBeDir (s.disk (level_two s.dir hash))
  pub file : Gives (s.disk (key_path s.dir hash)) bs
  pub bytes : AreBytes bs

scan_free :
    (descs : ℕ → Desc) (left i tmp k : ℕ) (r : Scan)
    → i ≤ k
    → k < i + left
    → (descs k).hash ≡ 0
    → Chosen descs left i tmp none r
    → (j : ℕ) × (r ≡ free_slot j) × (j < i + left) × ((descs j).hash ≡ 0) × UsedBefore descs i j
scan_free descs left i tmp k (free_slot j) a b e (_, below, h, used) = (j, refl, below, h, used)
scan_free descs left i tmp k (full r) a b e (used, _) = absurd (used k a b e)

-- The store once a slot has been taken.
abbrev pub at_slot : Store → ℕ → List ℕ → Store
at_slot s j ts = record s { idx = j; times = ts }

pub slot_lem :
    (s : Store)
    → (k : ℕ) × (s.idx ≤ k) × (k < 8192) × ((s.descs k).hash ≡ 0)
    → (j : ℕ) × (ts : List ℕ) × (get_avalible_slot s ≡ some (some j, at_slot s j ts))
      × (j < 8192)
      × ((s.descs j).hash ≡ 0)
      × UsedBefore s.descs s.idx j
unfolding get_avalible_slot take_slot
slot_lem s (k, a, b, e) =
    let (tmp, ts, run) = get_us_lem s in
    let (j, scan, below, free, used) =
      scan_free s.descs (desc_table_size - s.idx) s.idx tmp k _ a (omega arith) e
        (scan_slots_lem s.descs (desc_table_size - s.idx) s.idx tmp none) in
    (j, ts, rw (run, ◌>>=◌, scan) refl, omega arith, free, used)
