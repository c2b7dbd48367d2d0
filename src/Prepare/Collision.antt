-- ===== src/Prepare/Collision.antt =====
-- A key whose hash falls on a chain with a single entry.
use solidbits.Prelude.{ℕ, suc, ◌%◌, ◌≡◌, ◌≢◌, refl, none, some, ◌==◌, ==_iff, true, false, arith}
use solidbits.Store.{Store, Desc, update}
use solidbits.Table.{desc_hash_table_size}
use solidbits.Prepare.{found, ended, walk, walk_from, link}
use solidbits.Prepare.Lookup.{looked_up}

walk_single :
    (fuel : ℕ) (descs : ℕ → Desc) (hash i : ℕ)
    → (descs i).hash ≢ hash
    → (descs i).next ≡ none
    → walk_from (suc fuel) descs hash 0 i ≡ ended (some i) 0
unfolding walk_from
walk_single fuel descs hash i h n =
    let differs : ((descs i).hash == hash) ≡ false = ground arith in rw (differs, n)

-- If a key's descriptor is the only entry of its chain, and a new entry with another hash on the same
-- chain is linked as the code links it after a walk that took no step, then the head of the chain is
-- replaced: the key, whose file is still open, is not found any more.
pub link_loses_entry :
    (s : Store) (tmp new old : ℕ)
    → looked_up s old ≡ found tmp
    → (s.descs new).hash % desc_hash_table_size ≡ old % desc_hash_table_size
    → (s.descs new).hash ≢ old
    → (s.descs new).next ≡ none
    → (t : Store) × (link ((s.descs new).hash % desc_hash_table_size) (some tmp) 0 new s
        ≡ some (tt, t))
      × (looked_up t old ≡ ended (some new) 0)
unfolding link walk
link_loses_entry s tmp new old h c ne n =
    let id : ℕ = (s.descs new).hash % desc_hash_table_size in
    let same : (id == old % desc_hash_table_size) ≡ true = (==_iff _ _).1 c in
    (
      record s { xxtable = update s.xxtable id (some new) },
      refl,
      rw same (walk_single 8191 s.descs old new ne n),
    )
