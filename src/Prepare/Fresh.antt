-- ===== src/Prepare/Fresh.antt =====
-- `prepare_file` for a key that has no descriptor yet, where no call fails and a slot is free.
use solidbits.Prelude.{
  ℕ, suc, ◌%◌, ◌≡◌, ◌≢◌, refl, sym, ap, subst, ◌∙◌, true, Option, none, some, List, ◌==◌, ==_iff,
  arith,
}
use solidbits.Prelude.Int.{pos}
use solidbits.Store.{Desc, Store, pure, ◌>>=◌, ◌>>◌, update}
use solidbits.Store.Quiet.{get_us_lem}
use solidbits.Stdio.Holds.{Holds}
use solidbits.Paths.{level_one, level_two, key_path}
use solidbits.Paths.Made.{
  both_made, gen_path_lem, both_made_file, both_made_other, both_made_dirs, CanBeDir,
}
use solidbits.Table.{desc_hash_table_size}
use solidbits.Table.Oldest.{UsedBefore}
use solidbits.Prepare.{
  ready, found, ended, walk, walk_from, link, enter, after_walk, prepare_file, open_file, Mode,
}
use solidbits.Prepare.Lookup.{looked_up, Holds-kept}
use solidbits.Prepare.Slot.{CanOpen, at_slot, slot_lem}
use solidbits.Prepare.Open.{CanStart, Gives, open_node_lem, open_path_lem}
use solidbits.Paths.Lengths.{key_path_fits}

-- What a fresh opening has done to the store.
pub record Opens (s t : Store) (i hash : ℕ) (bs : List ℕ) : Type 0 where
  pub free : (s.descs i).hash ≡ 0
  pub holds : Holds t i (key_path s.dir hash) bs
  pub descs : (j : ℕ) → j ≢ i → t.descs j ≡ s.descs j
  pub dir : t.dir ≡ s.dir
  pub idx : t.idx ≡ i
  pub used : UsedBefore s.descs s.idx i
  pub dirs : (q : List ℕ) → key_path s.dir hash ≢ q → CanBeDir (s.disk q) → CanBeDir (t.disk q)
  pub disk :
      (q : List ℕ)
      → level_one s.dir hash ≢ q
      → level_two s.dir hash ≢ q
      → key_path s.dir hash ≢ q
      → t.disk q ≡ s.disk q

open_file_lem :
    (s : Store) (hash : ℕ) (bs : List ℕ) (mode : Mode)
    → CanStart mode (s.disk (key_path s.dir hash))
    → CanOpen s hash bs
    → (i : ℕ) × (t : Store) × (open_file hash mode s ≡ some (ready i, t))
      × Opens s t i hash bs
      × (t.xxtable ≡ s.xxtable)
unfolding open_file
open_file_lem s hash bs mode m c =
    let (i, ts, slot, below, free, used) = slot_lem s c.slot in
    let s1 : Store = at_slot s i ts in
    let s2 : Store = both_made s1 hash in
    let path : List ℕ = key_path s.dir hash in
    let (t, run, o) =
      open_node_lem s2 i path bs mode (s2.disk path)
        (subst (CanStart mode) (sym (both_made_file s1 hash)) m) c.quiet refl
        (subst (λ n. Gives n bs) (sym (both_made_file s1 hash)) c.file) c.bytes in
    (
      i,
      t,
      rw
          (
            slot,
            ◌>>=◌,
            gen_path_lem s1 hash c.quiet c.short c.one c.two,
            open_path_lem s2 i path mode c.quiet (key_path_fits s.dir hash c.short),
          )
          run,
      record {
        free = free;
        holds = o.holds;
        descs = λ j ne. ap (λ (d : ℕ → Desc). d j) o.descs ∙ ground arith;
        dir = o.others.1;
        idx = o.others.3;
        used = used;
        dirs = λ q n h. subst CanBeDir (sym (o.disk q n)) (both_made_dirs s1 hash q h);
        disk = λ q n1 n2 n3. o.disk q n3 ∙ both_made_other s1 hash q n1 n2;
      },
      o.others.0,
    )

-- And what entering it into its chain has done.
pub record Entered (s t : Store) (i hash : ℕ) : Type 0 where
  pub heads : t.xxtable ≡ update s.xxtable (hash % desc_hash_table_size) (some i)
  pub has_hash : (t.descs i).hash ≡ hash

-- The entry as `prepare_file` leaves it.
abbrev pub entered : Desc → ℕ → ℕ → Desc
entered d hash t = record d {
  hash = hash;
  created_at = t;
  last_access = t;
  access_times = 1;
  refs = pos 1;
}

abbrev pub entry_at : Store → ℕ → ℕ → ℕ → List ℕ → Store
entry_at s i hash t ts = record s {
  descs = update s.descs i (entered (s.descs i) hash t);
  xxtable = update s.xxtable (hash % desc_hash_table_size) (some i);
  times = ts;
}

pub link_ready :
    (s : Store) (id : ℕ) (tmp : Option ℕ) (new : ℕ)
    → (link id tmp 0 new >> pure (ready new)) s
      ≡ some (ready new, record s { xxtable = update s.xxtable id (some new) })
unfolding link
link_ready s id none new = refl
link_ready s id (some tmp) new = refl

walk_found :
    (fuel : ℕ) (descs : ℕ → Desc) (hash i : ℕ)
    → (descs i).hash ≡ hash
    → walk_from (suc fuel) descs hash 0 i ≡ found i
unfolding walk_from
walk_found fuel descs hash i h =
    let same : ((descs i).hash == hash) ≡ true = (==_iff _ _).1 h in rw same

pub walk_head :
    (descs : ℕ → Desc) (hash i : ℕ) → (descs i).hash ≡ hash → walk descs hash (some i) ≡ found i
unfolding walk
walk_head descs hash i h = walk_found 8191 descs hash i h

pub update_self : {A : Type 0} (f : ℕ → A) (i : ℕ) (v : A) → update f i v i ≡ v
update_self f i v = let same : (i == i) ≡ true = (==_iff i i).1 refl in rw same

finds_entry :
    (s : Store) (i hash t : ℕ) (ts : List ℕ) → looked_up (entry_at s i hash t ts) hash ≡ found i
finds_entry s i hash t ts =
    let descs : ℕ → Desc = update s.descs i (entered (s.descs i) hash t) in
    ap (walk descs hash) (update_self s.xxtable (hash % desc_hash_table_size) (some i))
    ∙ walk_head descs hash i
        (ap (λ (d : Desc). d.hash) (update_self s.descs i (entered (s.descs i) hash t)))

Opens-entered :
    (s t : Store) (i hash now : ℕ) (bs ts : List ℕ)
    → Opens s t i hash bs
    → Opens s (entry_at t i hash now ts) i hash bs
Opens-entered s t i hash now bs ts o = record {
  free = o.free;
  holds =
      Holds-kept t (entry_at t i hash now ts) i (key_path s.dir hash) bs (ground arith)
        (ground arith) refl refl o.holds;
  descs = λ j ne. ground (arith, o.descs j);
  dir = o.dir;
  idx = o.idx;
  used = o.used;
  dirs = o.dirs;
  disk = o.disk;
}

enter_lem :
    (s : Store) (hash : ℕ) (bs : List ℕ) (mode : Mode) (tmp : Option ℕ)
    → CanStart mode (s.disk (key_path s.dir hash))
    → CanOpen s hash bs
    → (i : ℕ) × (t : Store) × (enter hash mode tmp 0 s ≡ some (ready i, t))
      × Opens s t i hash bs
      × (looked_up t hash ≡ found i)
      × Entered s t i hash
unfolding enter
enter_lem s hash bs mode tmp m c =
    let (i, t, run, o, heads) = open_file_lem s hash bs mode m c in
    let (now, ts, clock) = get_us_lem t in
    (
      i,
      entry_at t i hash now ts,
      rw (run, ◌>>=◌, clock)
          (link_ready
            (record t { descs = update t.descs i (entered (t.descs i) hash now); times = ts })
            (hash % desc_hash_table_size) tmp i),
      Opens-entered s t i hash now bs ts o,
      finds_entry t i hash now ts,
      record {
        heads = ap (λ (h : ℕ → Option ℕ). update h (hash % desc_hash_table_size) (some i)) heads;
        has_hash = ap (λ (d : Desc). d.hash) (update_self t.descs i (entered (t.descs i) hash now));
      },
    )

-- For a key that the walk along its chain does not find, where that chain is empty or one entry long,
-- the directory has at most 236 bytes, a slot from `idx` on is free, its
-- directories are there or can be made, no call fails, and the mode is 0, or 1 and the file is
-- there: `prepare_file` takes the first free entry and leaves it open on the key's file and in step with it,
-- with the bytes that the file has, or none if it is new; the key is found there from then on, at the head of its chain. No
-- other entry changes, and no file but that one and its directories.
pub prepare_file_fresh :
    (xxh64 : List ℕ → ℕ) (key : List ℕ) (s : Store) (bs : List ℕ) (mode : Mode) (tmp : Option ℕ)
    → looked_up s (xxh64 key) ≡ ended tmp 0
    → CanStart mode (s.disk (key_path s.dir (xxh64 key)))
    → CanOpen s (xxh64 key) bs
    → (i : ℕ) × (t : Store) × (prepare_file xxh64 key mode s ≡ some (ready i, t))
      × Opens s t i (xxh64 key) bs
      × (looked_up t (xxh64 key) ≡ found i)
      × Entered s t i (xxh64 key)
unfolding prepare_file after_walk
prepare_file_fresh xxh64 key s bs mode tmp h m c =
    let (i, t, run, o, finds, in_table) = enter_lem s (xxh64 key) bs mode tmp m c in
    (i, t, rw h run, o, finds, in_table)
