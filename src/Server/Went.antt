-- ===== src/Server/Went.antt =====
-- Where a line of a key that has no descriptor leads to.
use solidbits.Prelude.{ℕ, ◌%◌, ◌≡◌, ◌≢◌, ◌⊎◌, refl, ap, ◌∙◌, Option, none, some, List}
use solidbits.Store.{Store}
use solidbits.Store.Keys.{SameKeys}
use solidbits.Stdio.Holds.{Holds}
use solidbits.Bitops.Bit.{bit_at}
use solidbits.Table.{desc_hash_table_size}
use solidbits.Table.Oldest.{UsedBefore}
use solidbits.Prepare.{ended, walk}
use solidbits.Prepare.Lookup.{looked_up}
use solidbits.Prepare.Slot.{CanOpen}
use solidbits.Prepare.Fresh.{Opens, Entered, update_self}
use solidbits.Paths.{key_path}
use solidbits.Server.Change.{Change, Change-trans, SameKeys-Change, Opens-Change}
use solidbits.Server.Kept.{Keeping, Keeping-after}

-- The key can be opened, and has these bits.
pub record Waiting (s : Store) (hash : ℕ) (path : List ℕ) (bits : ℕ → ℕ) : Type 0 where
  pub bytes : List ℕ
  pub head : s.xxtable (hash % desc_hash_table_size) ≡ none
  pub opens : CanOpen s hash bytes
  pub there : key_path s.dir hash ≡ path
  pub same : bit_at bytes ≡ bits

-- A line has opened it, in the first free slot.
pub record Took (s t : Store) (hash dt : ℕ) (path : List ℕ) (bits : ℕ → ℕ) : Type 0 where
  pub kept : Keeping t hash dt path bits
  pub change : Change s t hash (some dt)
  pub free : (s.descs dt).hash ≡ 0
  pub used : UsedBefore s.descs s.idx dt
  pub idx : t.idx ≡ dt

-- A line has found no file, and the scan has gone to the first free slot.
pub record Stays (s t : Store) (hash : ℕ) (path : List ℕ) (bits : ℕ → ℕ) : Type 0 where
  pub waits : Waiting t hash path bits
  pub change : Change s t hash none
  pub used : UsedBefore s.descs s.idx t.idx

abbrev pub Went : Store → Store → ℕ → List ℕ → (ℕ → ℕ) → Type 0
Went s t hash path bits = ((dt : ℕ) × Took s t hash dt path bits) ⊎ Stays s t hash path bits

pub misses :
    (s : Store) (hash : ℕ)
    → s.xxtable (hash % desc_hash_table_size) ≡ none
    → looked_up s hash ≡ ended none 0
unfolding walk
misses s hash h = ap (walk s.descs hash) h

-- The command that opens the key, after `prepare_file`.
pub Took-after :
    (s t u : Store) (hash dt : ℕ) (bs now : List ℕ) (new : ℕ → ℕ)
    → Opens s t dt hash bs
    → Entered s t dt hash
    → SameKeys t u dt
    → ((q : List ℕ) → key_path t.dir hash ≢ q → u.disk q ≡ t.disk q)
    → Holds u dt (key_path s.dir hash) now
    → bit_at now ≡ new
    → Took s u hash dt (key_path s.dir hash) new
Took-after s t u hash dt bs now new o e k disk h same =
    let path : List ℕ = key_path s.dir hash in
    let opened : Keeping t hash dt path (bit_at bs) = record {
      bytes = bs;
      head =
          ap (λ (h : ℕ → Option ℕ). h (hash % desc_hash_table_size)) e.heads
          ∙ update_self s.xxtable (hash % desc_hash_table_size) (some dt);
      has_hash = e.has_hash;
      holds = o.holds;
      there = ap (λ d. key_path d hash) o.dir;
      same = refl;
    } in
    record {
      kept = Keeping-after t u hash dt path now (bit_at bs) new opened k h same;
      change =
          Change-trans s t u hash (some dt) (Opens-Change s t dt hash bs o e)
            (SameKeys-Change t u hash dt k disk);
      free = o.free;
      used = o.used;
      idx = k.idx ∙ o.idx;
    }
