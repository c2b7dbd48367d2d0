-- ===== src/Prepare/Opening.antt =====
-- How a descriptor stands after its file has been opened.
use solidbits.Prelude.{ℕ, ◌≡◌, ◌≢◌, refl, fun_ext, some, List, [], length, false, arith}
use solidbits.Store.{regular, Store, update, update_disk, ◌>>=◌}
use solidbits.Store.Paths.{update_disk_self, update_disk_ne}
use solidbits.Stdio.Transfer.{IsOpen, rewound}
use solidbits.Stdio.Holds.{Holds}
use solidbits.Popcount.Spec.{AreBytes}
use solidbits.Prepare.{
  Mode, truncate, ready, is_truncate, is_existing, open_present, open_absent, fopen, fresh,
}

-- The store after `fopen`, where it succeeds.
abbrev pub opened_at : Store → ℕ → List ℕ → Store
opened_at s i path = record s {
  descs = update s.descs i (record (s.descs i) { fd = some (fresh path) });
}

pub fopen_lem :
    (s : Store) (i : ℕ) (path : List ℕ)
    → s.faults ≡ []
    → fopen i path false s ≡ some (ready i, opened_at s i path)
unfolding fopen
fopen_lem s i path q = rw q refl

-- The store when the recorded length is set as well.
abbrev pub sized : Store → ℕ → List ℕ → ℕ → Store
sized s i path n = record (opened_at s i path) {
  descs =
      update (opened_at s i path).descs i (record ((opened_at s i path).descs i) { length = n });
}

pub sized_stream :
    (s : Store) (i : ℕ) (path : List ℕ) (n : ℕ)
    → rewound ((sized s i path n).descs i).fd
      ≡ some (record { path = path; pos = 0; error = false })
sized_stream s i path n = ground arith

pub sized_length :
    (s : Store) (i : ℕ) (path : List ℕ) (n : ℕ) → ((sized s i path n).descs i).length ≡ n
sized_length s i path n = ground arith

-- Opening into slot `i` changes the entry there and the file, and nothing else.
pub record OpenedAt (s t : Store) (i : ℕ) (path bs : List ℕ) : Type 0 where
  pub holds : Holds t i path bs
  pub descs : t.descs ≡ update s.descs i (t.descs i)
  pub disk : (q : List ℕ) → path ≢ q → t.disk q ≡ s.disk q
  pub others : (t.xxtable ≡ s.xxtable) × (t.dir ≡ s.dir) × (t.faults ≡ s.faults) × (t.idx ≡ s.idx)

-- A file that exists, opened without truncation, with no failing call: the descriptor is in step
-- with the bytes of the file, and no other entry and no file changes.
pub open_present-Holds :
    (s : Store) (i : ℕ) (path bs : List ℕ) (mode : Mode)
    → is_truncate mode ≡ false
    → s.faults ≡ []
    → s.disk path ≡ regular bs
    → AreBytes bs
    → (t : Store) × (open_present i path bs mode s ≡ some (ready i, t)) × OpenedAt s t i path bs
unfolding open_present
open_present-Holds s i path bs mode m q f b = (
  sized s i path (length bs),
  rw (fopen_lem s i path q, ◌>>=◌, m),
  record {
    holds = record {
      is_open = record { stream = sized_stream s i path (length bs); file = f; quiet = q };
      synced = sized_length s i path (length bs);
      bytes = b;
    };
    descs = fun_ext λ j. ground arith;
    disk = λ q ne. refl;
    others = (refl, refl, refl, refl);
  },
)

-- A file that exists, opened with truncation, as the destination of BITOP is: the file is empty
-- afterwards, but the recorded length is the one that it had before.
pub open_present_stale :
    (s : Store) (i : ℕ) (path bs : List ℕ)
    → s.faults ≡ []
    → (t : Store) × (open_present i path bs truncate s ≡ some (ready i, t))
      × IsOpen t i path []
      × ((t.descs i).length ≡ length bs)
unfolding open_present
open_present_stale s i path bs q = (
  record (sized s i path (length bs)) { disk = update_disk s.disk path (regular []) },
  rw (fopen_lem s i path q, ◌>>=◌),
  record {
    stream = sized_stream s i path (length bs);
    file = update_disk_self s.disk path (regular []);
    quiet = q;
  },
  sized_length s i path (length bs),
)

-- A file that is created, with no failing call: it is empty, the descriptor is in step, and
-- no other entry and no other file changes.
pub open_absent-Holds :
    (s : Store) (i : ℕ) (path : List ℕ) (mode : Mode)
    → is_existing mode ≡ false
    → s.faults ≡ []
    → (t : Store) × (open_absent i path false mode s ≡ some (ready i, t)) × OpenedAt s t i path []
unfolding open_absent
open_absent-Holds s i path mode m q = (
  record (sized s i path 0) { disk = update_disk s.disk path (regular []) },
  rw (m, fopen_lem s i path q, ◌>>=◌),
  record {
    holds = record {
      is_open = record {
        stream = sized_stream s i path 0;
        file = update_disk_self s.disk path (regular []);
        quiet = q;
      };
      synced = sized_length s i path 0;
      bytes = tt;
    };
    descs = fun_ext λ j. ground arith;
    disk = λ q ne. update_disk_ne s.disk path q (regular []) ne;
    others = (refl, refl, refl, refl);
  },
)
