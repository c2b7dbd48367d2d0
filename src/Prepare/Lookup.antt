-- ===== src/Prepare/Lookup.antt =====
-- `prepare_file` for a key whose descriptor is in the table, and `release_desc` after it.
use solidbits.Prelude.{
  ℕ, zero, suc, Option, none, Option-cases, inl, inr, ◌+◌, ◌%◌, ◌≡◌, refl, ap, fun_ext, ◌∙◌, some,
  List, arith,
}
use solidbits.Prelude.Int.{ℤ, pos, ◌+ℤ◌, ◌-ℤ◌}
use solidbits.Store.{Node, Store, update, ◌>>=◌}
use solidbits.Store.Keys.{SameKeys}
use solidbits.Store.Quiet.{get_us_lem}
use solidbits.Stdio.Transfer.{rewound}
use solidbits.Stdio.Holds.{Holds}
use solidbits.Table.{desc_table_size, desc_hash_table_size}
use solidbits.Prepare.{
  Mode, ready, Walk, found, walk, walk_from, touch, after_walk, prepare_file, release_desc,
}

-- The walk along the chain of a hash.
abbrev pub looked_up : Store → ℕ → Walk
looked_up s hash = walk s.descs hash (s.xxtable (hash % desc_hash_table_size))

-- What a hit changes: the use of one descriptor is counted.
pub record Touched (s t : Store) (dt : ℕ) : Type 0 where
  pub refs : (t.descs dt).refs ≡ (s.descs dt).refs +ℤ pos 1
  pub access_times : (t.descs dt).access_times ≡ (s.descs dt).access_times + 1
  pub fd : (t.descs dt).fd ≡ (s.descs dt).fd
  pub length : (t.descs dt).length ≡ (s.descs dt).length
  pub others : t.descs ≡ update s.descs dt (t.descs dt)
  pub disk : t.disk ≡ s.disk
  pub faults : t.faults ≡ s.faults
  pub keys : SameKeys s t dt

abbrev touched : Store → ℕ → ℕ → List ℕ → Store
touched s dt t ts = record s {
  descs = update s.descs dt (record (s.descs dt) {
    refs = (s.descs dt).refs +ℤ pos 1;
    access_times = (s.descs dt).access_times + 1;
    last_access = t;
  });
  times = ts;
}

touch_lem : (s : Store) (dt : ℕ) → (t : Store) × (touch dt s ≡ some (ready dt, t)) × Touched s t dt
unfolding touch
touch_lem s dt =
    let (v, ts, e) = get_us_lem s in
    (
      touched s dt v ts,
      rw (e, ◌>>=◌),
      record {
        refs = ground arith;
        access_times = ground arith;
        fd = ground arith;
        length = ground arith;
        others = fun_ext λ j. ground arith;
        disk = refl;
        faults = refl;
        keys = record {
          heads = refl;
          hashes = λ i. ground arith;
          links = λ i. ground arith;
          others = λ i ne. ground arith;
          dir = refl;
          idx = refl;
        };
      },
    )

-- If the walk along the chain of the key's hash finds a descriptor, `prepare_file` returns that
-- descriptor, whatever the mode: it counts one more reference and one more access, and changes neither
-- the stream, nor the recorded length, nor any other descriptor, nor any file. In particular a
-- destination of BITOP that is open already is not truncated.
pub prepare_file_hit :
    (xxh64 : List ℕ → ℕ) (key : List ℕ) (mode : Mode) (s : Store) (dt : ℕ)
    → looked_up s (xxh64 key) ≡ found dt
    → (t : Store) × (prepare_file xxh64 key mode s ≡ some (ready dt, t)) × Touched s t dt
unfolding prepare_file after_walk
prepare_file_hit xxh64 key mode s dt h = let (t, e, w) = touch_lem s dt in (t, rw (h, e), w)

plus_minus : (n : ℤ) → n +ℤ pos 1 -ℤ pos 1 ≡ n
unfolding ◌+ℤ◌ ◌-ℤ◌
plus_minus n = ground arith

-- What letting go changes: one reference less.
pub record Released (s t : Store) (dt : ℕ) : Type 0 where
  pub refs : (t.descs dt).refs ≡ (s.descs dt).refs -ℤ pos 1
  pub fd : (t.descs dt).fd ≡ (s.descs dt).fd
  pub length : (t.descs dt).length ≡ (s.descs dt).length
  pub disk : t.disk ≡ s.disk
  pub faults : t.faults ≡ s.faults
  pub keys : SameKeys s t dt

pub release_desc_lem :
    (s : Store) (dt : ℕ) → (t : Store) × (release_desc dt s ≡ some (tt, t)) × Released s t dt
unfolding release_desc
release_desc_lem s dt = (
  _,
  refl,
  record {
    refs = ground arith;
    fd = ground arith;
    length = ground arith;
    disk = refl;
    faults = refl;
    keys = record {
      heads = refl;
      hashes = λ i. ground arith;
      links = λ i. ground arith;
      others = λ i ne. ground arith;
      dir = refl;
      idx = refl;
    };
  },
)

pub Holds-kept :
    (s t : Store) (dt : ℕ) (path bs : List ℕ)
    → (t.descs dt).fd ≡ (s.descs dt).fd
    → (t.descs dt).length ≡ (s.descs dt).length
    → t.disk ≡ s.disk
    → t.faults ≡ s.faults
    → Holds s dt path bs
    → Holds t dt path bs
Holds-kept s t dt path bs same_fd same_length same_disk same_faults h = record {
  is_open = record {
    stream = ap rewound same_fd ∙ h.is_open.stream;
    file = ap (λ (d : List ℕ → Node). d path) same_disk ∙ h.is_open.file;
    quiet = same_faults ∙ h.is_open.quiet;
  };
  synced = same_length ∙ h.synced;
  bytes = h.bytes;
}

pub Holds-Touched :
    (s t : Store) (dt : ℕ) (path bs : List ℕ)
    → Touched s t dt
    → Holds s dt path bs
    → Holds t dt path bs
Holds-Touched s t dt path bs w h = Holds-kept s t dt path bs w.fd w.length w.disk w.faults h

pub Holds-Released :
    (s t : Store) (dt : ℕ) (path bs : List ℕ)
    → Released s t dt
    → Holds s dt path bs
    → Holds t dt path bs
Holds-Released s t dt path bs w h = Holds-kept s t dt path bs w.fd w.length w.disk w.faults h

walk_from_same :
    (s t : Store) (dt fuel hash depth tmp : ℕ)
    → SameKeys s t dt
    → walk_from fuel t.descs hash depth tmp ≡ walk_from fuel s.descs hash depth tmp
unfolding walk_from
walk_from_same s t dt zero hash depth tmp k = refl
walk_from_same s t dt (suc fuel) hash depth tmp k = elim (Option-cases (s.descs tmp).next) [
  | inl e ↦ rw (k.hashes tmp, k.links tmp, e) refl
  | inr (n, e) ↦
      rw (k.hashes tmp, k.links tmp, e, walk_from_same s t dt fuel hash (depth + 1) n k) refl
]

walk_same :
    (s t : Store) (dt hash : ℕ) (head : Option ℕ)
    → SameKeys s t dt
    → walk t.descs hash head ≡ walk s.descs hash head
unfolding walk
walk_same s t dt hash none k = refl
walk_same s t dt hash (some tmp) k = walk_from_same s t dt desc_table_size hash 0 tmp k

-- A key is found where it was.
pub looked_up_same :
    (s t : Store) (dt hash : ℕ) → SameKeys s t dt → looked_up t hash ≡ looked_up s hash
looked_up_same s t dt hash k =
    walk_same s t dt hash (t.xxtable (hash % desc_hash_table_size)) k
    ∙ ap (λ heads. walk s.descs hash (heads (hash % desc_hash_table_size))) k.heads
