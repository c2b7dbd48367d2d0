-- ===== src/Prepare/Stale.antt =====
-- `prepare_file` with mode 2, as for the destination of BITOP, for a key that has a file.
use solidbits.Prelude.{ℕ, ◌%◌, ◌≡◌, ◌∙◌, Option, some, List, [], length, arith}
use solidbits.Store.{Store, regular, ◌>>=◌, update}
use solidbits.Store.Quiet.{get_us_lem}
use solidbits.Stdio.Transfer.{IsOpen}
use solidbits.Paths.{key_path}
use solidbits.Paths.Made.{both_made, gen_path_lem, both_made_file}
use solidbits.Paths.Lengths.{key_path_fits}
use solidbits.Table.{desc_hash_table_size}
use solidbits.Prepare.{
  truncate, ready, ended, enter, after_walk, prepare_file, open_file, open_node,
}
use solidbits.Prepare.Lookup.{looked_up}
use solidbits.Prepare.Opening.{open_present_stale}
use solidbits.Prepare.Open.{open_path_lem}
use solidbits.Prepare.Slot.{CanOpen, at_slot, slot_lem}
use solidbits.Prepare.Fresh.{entered, entry_at, link_ready}

-- The descriptor is open on the file, which is empty, and records the length `n`.
abbrev pub RecordsLength : Store → ℕ → List ℕ → ℕ → Type 0
RecordsLength t i path n = IsOpen t i path [] × ((t.descs i).length ≡ n)

stale_file :
    (s : Store) (hash : ℕ) (bs : List ℕ)
    → s.disk (key_path s.dir hash) ≡ regular bs
    → CanOpen s hash bs
    → (i : ℕ) × (t : Store) × (open_file hash truncate s ≡ some (ready i, t))
      × RecordsLength t i (key_path s.dir hash) (length bs)
unfolding open_file open_node
stale_file s hash bs e c =
    let (i, ts, slot, below, free, used) = slot_lem s c.slot in
    let s1 : Store = at_slot s i ts in
    let s2 : Store = both_made s1 hash in
    let path : List ℕ = key_path s.dir hash in
    let there = both_made_file s1 hash ∙ e in
    let (t, run, is_open, n) = open_present_stale s2 i path bs c.quiet in
    (
      i,
      t,
      rw
          (
            slot,
            ◌>>=◌,
            gen_path_lem s1 hash c.quiet c.short c.one c.two,
            open_path_lem s2 i path truncate c.quiet (key_path_fits s.dir hash c.short),
            there,
          )
          run,
      (is_open, n),
    )

RecordsLength-entered :
    (t : Store) (i hash now : ℕ) (ts : List ℕ) (path : List ℕ) (n : ℕ)
    → RecordsLength t i path n
    → RecordsLength (entry_at t i hash now ts) i path n
RecordsLength-entered t i hash now ts path n (o, size) = (
  record { stream = ground (arith, o.stream); file = o.file; quiet = o.quiet },
  ground (arith, size),
)

stale_entry :
    (s : Store) (hash : ℕ) (bs : List ℕ) (tmp : Option ℕ)
    → s.disk (key_path s.dir hash) ≡ regular bs
    → CanOpen s hash bs
    → (i : ℕ) × (t : Store) × (enter hash truncate tmp 0 s ≡ some (ready i, t))
      × RecordsLength t i (key_path s.dir hash) (length bs)
unfolding enter
stale_entry s hash bs tmp e c =
    let (i, t, run, stale) = stale_file s hash bs e c in
    let (now, ts, clock) = get_us_lem t in
    (
      i,
      entry_at t i hash now ts,
      rw (run, ◌>>=◌, clock)
          (link_ready
            (record t { descs = update t.descs i (entered (t.descs i) hash now); times = ts })
            (hash % desc_hash_table_size) tmp i),
      RecordsLength-entered t i hash now ts (key_path s.dir hash) (length bs) stale,
    )

-- A key that has a file with some bytes, is not open, and whose chain is empty or one entry long, while
-- the directory has at most 236 bytes, a slot from `idx` on is free, and the key's directories are there
-- or can be made: with mode 2 and no failing call, `prepare_file` leaves its file empty, but the descriptor records the
-- length that the file had before.
pub prepare_file_stale :
    (xxh64 : List ℕ → ℕ) (key : List ℕ) (s : Store) (bs : List ℕ) (tmp : Option ℕ)
    → looked_up s (xxh64 key) ≡ ended tmp 0
    → s.disk (key_path s.dir (xxh64 key)) ≡ regular bs
    → CanOpen s (xxh64 key) bs
    → (i : ℕ) × (t : Store) × (prepare_file xxh64 key truncate s ≡ some (ready i, t))
      × RecordsLength t i (key_path s.dir (xxh64 key)) (length bs)
unfolding prepare_file after_walk
prepare_file_stale xxh64 key s bs tmp h e c =
    let (i, t, run, stale) = stale_entry s (xxh64 key) bs tmp e c in (i, t, rw h run, stale)
