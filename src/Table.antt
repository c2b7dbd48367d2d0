-- ===== src/Table.antt =====
-- src/file.c: the table of open files. `descs` is an array of `desc_table_size` entries and `xxtable`
-- the heads of the hash chains through it.
pub mod Oldest
pub mod Keeps
use solidbits.Prelude.{
  ℕ, zero, suc, ◌+◌, ◌-◌, ◌*◌, ◌%◌, Bool, true, false, Option, none, some, List, [], ◌∷◌, length,
  ltb, ◌==◌, ◌&&◌, if◌then◌else◌, map,
}
use solidbits.Prelude.Int.{ℤ, pos, ◌+ℤ◌, ◌-ℤ◌}
use solidbits.Store.{
  Node, absent, directory, regular, Stream, Desc, Store, M, pure, undefined, ◌>>=◌, ◌>>◌, get_desc,
  put_desc, get_node, put_node, next_fault, get_us, update,
}
use solidbits.Stdio.{failed}
use solidbits.Paths.{gen_path}

abbrev pub desc_table_size : ℕ
desc_table_size = 8192

abbrev pub desc_hash_table_size : ℕ
desc_hash_table_size = 65537

-- What `bzero` and `calloc` leave.
abbrev pub no_desc : Desc
no_desc = record {
  hash = 0;
  fd = none;
  length = 0;
  last_access = 0;
  access_times = 0;
  created_at = 0;
  refs = pos 0;
  next = none;
  prev = none;
}

abbrev pub put_head : ℕ → Option ℕ → M (Unit {0})
put_head id h s = some (tt, record s { xxtable = update s.xxtable id h })

abbrev pub get_head : ℕ → M (Option ℕ)
get_head id s = some (s.xxtable id, s)

abbrev pub put_idx : ℕ → M (Unit {0})
put_idx i s = some (tt, record s { idx = i })

-- `init_file`, and the `bzero` of `XXTABLE` in `main`.
unfoldable pub init_file : M (Unit {0})
init_file s = some (tt, record s { descs = λ i. no_desc; xxtable = λ i. none; idx = 0 })

-- `dt->refs == 0`
abbrev pub is_free : ℤ → Bool
is_free (pos n) = n == 0
is_free (ℤ.negsuc n) = false

-- The result of the `for` loop of `get_avalible_slot`: a free slot, or the entry to evict.
pub data Scan : Type 0 where
  free_slot : ℕ → Scan
  full : Option ℕ → Scan

-- The loop from slot `i` with `left` slots to go.
unfoldable pub scan_slots : (ℕ → Desc) → ℕ → ℕ → ℕ → Option ℕ → Scan
scan_slots descs zero i tmp lowest = full lowest
scan_slots descs (suc left) i tmp lowest =
    let d = descs i in
    let older = is_free d.refs && ltb d.last_access tmp in
    let rest =
      scan_slots descs left (i + 1) (if older then d.last_access else tmp)
        (if older then some i else lowest) in
    if d.hash == 0 then free_slot i else rest

-- `close_file`. The stream is gone afterwards; closing NULL is undefined.
unfoldable pub close_file : ℕ → M (Unit {0})
close_file i = do
  d ← get_desc i
  elim d.fd [ none ↦ undefined | some f ↦ put_desc i (record d { fd = none }) ]

-- Take an entry out of its chain, with the four cases of the source.
unfoldable pub unlink : ℕ → M (Unit {0})
unlink i = do
  d ← get_desc i
  elim d.prev [
    | none ↦ elim d.next [
      | none ↦ put_head (d.hash % desc_hash_table_size) none
      | some n ↦ do
        put_head (d.hash % desc_hash_table_size) (some n)
        e ← get_desc n
        put_desc n (record e { prev = none })
    ]
    | some p ↦ do e ← get_desc p; put_desc p (record e { next = d.next })
  ]

-- `unlink`, `close_file` and `bzero` of the entry that is evicted.
unfoldable pub evict : ℕ → M (Unit {0})
unfolding unlink close_file
evict i = do unlink i; close_file i; put_desc i no_desc

-- The slot that `get_avalible_slot` returns, `none` for -1; `idx` is what `open_file` then uses.
unfoldable pub take_slot : Scan → M (Option ℕ)
unfolding evict
take_slot (free_slot i) = do put_idx i; pure (some i)
take_slot (full none) = do put_idx 0; pure none
take_slot (full (some i)) = do put_idx 0; evict i; pure (some i)

unfoldable pub get_avalible_slot : M (Option ℕ)
unfolding take_slot scan_slots get_us
get_avalible_slot = do
  tmp ← get_us
  λ s. take_slot (scan_slots s.descs (desc_table_size - s.idx) s.idx tmp none) s
