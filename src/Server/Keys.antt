-- ===== src/Server/Keys.antt =====
-- Several keys at once: what holds of the table and of the files between two lines.
use solidbits.Prelude.{
  ℕ, ◌+◌, ◌^◌, ◌%◌, ◌≡◌, ◌≢◌, ◌≤◌, ◌<◌, refl, sym, ap, subst, ◌∙◌, inl, inr, Bool-cases, ◌==◌,
  ==_iff, ltb, ltb→lt, Option, none, some, List, [], arith,
}
use solidbits.Store.{Store, Desc, update}
use solidbits.Paths.{key_path}
use solidbits.Table.{desc_hash_table_size}
use solidbits.Table.Oldest.{UsedBefore}
use solidbits.Prepare.Fresh.{update_self}
use solidbits.Server.Change.{Change}
use solidbits.Server.Kept.{Keeping}
use solidbits.Server.Went.{Waiting, Took, Stays, Went}
use solidbits.Server.Slots.{count_open, count_open_lt, count_open-update}
use solidbits.Server.Others.{KeyIs, Closed, Apart, Waiting-KeyIs, Keeping-KeyIs, KeyIs-Change}

-- The first `n` hashes have 64 bits, are not 0, and are in different buckets.
pub record AreApart (n : ℕ) (hash : ℕ → ℕ) : Type 0 where
  pub apart :
      (j k : ℕ)
      → j < n
      → k < n
      → j ≢ k
      → hash j % desc_hash_table_size ≢ hash k % desc_hash_table_size
  pub nonzero : (k : ℕ) → k < n → hash k ≢ 0
  pub fits : (k : ℕ) → k < n → hash k < 2 ^ 64

-- `slot` gives the descriptors of the keys. Behind as many slots as there are such keys, all are free,
-- and the next scan starts at one of these or before.
pub record Inv (s : Store) (n : ℕ) (hash : ℕ → ℕ) (slot : ℕ → Option ℕ) (bits : ℕ → ℕ → ℕ)
    : Type 0 where
  pub quiet : s.faults ≡ []
  pub idx : s.idx ≤ count_open slot n
  pub free : (i : ℕ) → count_open slot n ≤ i → (s.descs i).hash ≡ 0
  pub each : (k : ℕ) → k < n → KeyIs s s.dir (hash k) (slot k) (bits k)

option_ne : (i j : ℕ) → i ≢ j → some i ≢ some j
option_ne i j ne e = ne (ground arith)

module _ {n : ℕ} {hash : ℕ → ℕ} (n_fits : n ≤ 8192) (apart : AreApart n hash) where
  Apart-keys : (j k : ℕ) → j < n → k < n → j ≢ k → Apart (hash j) (hash k)
  Apart-keys j k hj hk ne = record {
    buckets = apart.apart j k hj hk ne;
    fits = apart.fits j hj;
    others_fits = apart.fits k hk;
  }

  -- Every key after a line of key `k`.
  each_after :
      (s t : Store) (slot after : ℕ → Option ℕ) (bits : ℕ → ℕ → ℕ) (k : ℕ) (new : ℕ → ℕ)
      (d : Option ℕ)
      → Inv s n hash slot bits
      → k < n
      → Change s t (hash k) d
      → t.faults ≡ []
      → ((dt j : ℕ) → d ≡ some dt → j < n → j ≢ k → (s.descs dt).hash ≢ hash j)
      → ((j : ℕ) → j ≢ k → after j ≡ slot j)
      → KeyIs t t.dir (hash k) (after k) new
      → (j : ℕ) → j < n
      → KeyIs t t.dir (hash j) (after j) (update bits k new j)
  each_after s t slot after bits k new d v hk c q other same now j hj = elim (Bool-cases (k == j)) [
    | inl e ↦
        let is_k : k ≡ j = (==_iff k j).0 e in
        rw e (subst (λ i. KeyIs t t.dir (hash i) (after i) new) is_k now)
    | inr e ↦
        let ne : j ≢ k = ground arith in
        rw (e, same j ne)
          (KeyIs-Change s t (hash k) (hash j) d (slot j) (bits j) c
            (Apart-keys k j hk hj (λ x. ne (sym x))) q (λ dt x. other dt j x hj ne) (v.each j hj))
  ]

  pub hit_lem :
      (s t : Store) (slot : ℕ → Option ℕ) (bits : ℕ → ℕ → ℕ) (k dt : ℕ) (path : List ℕ)
      (old new : ℕ → ℕ)
      → Inv s n hash slot bits
      → k < n
      → slot k ≡ some dt
      → Keeping s (hash k) dt path old
      → Keeping t (hash k) dt path new
      → Change s t (hash k) (some dt)
      → t.idx ≡ s.idx
      → Inv t n hash slot (update bits k new)
  hit_lem s t slot bits k dt path old new v hk e k1 k2 c i = record {
    quiet = k2.holds.is_open.quiet;
    idx = omega (arith, i, v.idx);
    free = λ j h.
        let other : dt ≢ j =
          λ x. apart.nonzero k hk (sym k1.has_hash ∙ ap (λ d. (s.descs d).hash) x ∙ v.free j h) in
        ap (λ (d : Desc). d.hash) (c.descs j (λ x. other (ground arith))) ∙ v.free j h;
    each =
        each_after s t slot slot bits k new (some dt) v hk c k2.holds.is_open.quiet
          (λ d j x hj ne y. apart.apart j k hj hk ne (
            ap (λ h. h % desc_hash_table_size)
              (sym y ∙ ap (λ d. (s.descs d).hash) (ground arith) ∙ k1.has_hash)))
          (λ j ne. refl)
          (subst (λ o. KeyIs t t.dir (hash k) o new) (sym e)
            (Keeping-KeyIs t (hash k) dt path new k2));
  }

  -- The scan goes no further than to the first slot behind those of the keys.
  first_free :
      (s : Store) (slot : ℕ → Option ℕ) (bits : ℕ → ℕ → ℕ) (i : ℕ)
      → Inv s n hash slot bits
      → UsedBefore s.descs s.idx i
      → i ≤ count_open slot n
  first_free s slot bits i v used = elim (Bool-cases (ltb (count_open slot n) i)) [
    | inl past ↦ absurd (
        used (count_open slot n) v.idx (ltb→lt _ _ past) (v.free (count_open slot n) (omega arith)))
    | inr within ↦ ground arith
  ]

  took_lem :
      (s t : Store) (slot : ℕ → Option ℕ) (bits : ℕ → ℕ → ℕ) (k dt : ℕ) (path : List ℕ)
      (new : ℕ → ℕ)
      → Inv s n hash slot bits
      → k < n
      → slot k ≡ none
      → Took s t (hash k) dt path new
      → Inv t n hash (update slot k (some dt)) (update bits k new)
  took_lem s t slot bits k dt path new v hk e w =
      let within : dt ≤ count_open slot n = first_free s slot bits dt v w.used in
      let more : count_open (update slot k (some dt)) n ≡ count_open slot n + 1 =
        count_open-update slot n k dt hk e in
      record {
        quiet = w.kept.holds.is_open.quiet;
        idx = omega (arith, w.idx);
        free = λ j h.
            ap (λ (d : Desc). d.hash) (w.change.descs j (λ x. option_ne dt j (omega arith) x))
            ∙ v.free j (omega arith);
        each =
            each_after s t slot (update slot k (some dt)) bits k new (some dt) v hk w.change
              w.kept.holds.is_open.quiet
              (λ d j x hj ne y.
                apart.nonzero j hj (sym y ∙ ap (λ d. (s.descs d).hash) (ground arith) ∙ w.free))
              (λ j ne. ground arith)
              (subst (λ o. KeyIs t t.dir (hash k) o new) (sym (update_self slot k (some dt)))
                (Keeping-KeyIs t (hash k) dt path new w.kept));
      }

  stays_lem :
      (s t : Store) (slot : ℕ → Option ℕ) (bits : ℕ → ℕ → ℕ) (k : ℕ) (path : List ℕ) (new : ℕ → ℕ)
      → Inv s n hash slot bits
      → k < n
      → slot k ≡ none
      → Stays s t (hash k) path new
      → Inv t n hash slot (update bits k new)
  stays_lem s t slot bits k path new v hk e w = record {
    quiet = w.waits.opens.quiet;
    idx = first_free s slot bits t.idx v w.used;
    free = λ j h. ap (λ (d : Desc). d.hash) (w.change.descs j (λ x. cc)) ∙ v.free j h;
    each =
        each_after s t slot slot bits k new none v hk w.change w.waits.opens.quiet (λ d j x. cc)
          (λ j ne. refl)
          (subst (λ o. KeyIs t t.dir (hash k) o new) (sym e)
            (Waiting-KeyIs t (hash k) path new w.waits));
  }

  pub went_lem :
      (s t : Store) (slot : ℕ → Option ℕ) (bits : ℕ → ℕ → ℕ) (k : ℕ) (path : List ℕ) (new : ℕ → ℕ)
      → Inv s n hash slot bits
      → k < n
      → slot k ≡ none
      → Went s t (hash k) path new
      → (after : ℕ → Option ℕ) × Inv t n hash after (update bits k new)
  went_lem s t slot bits k path new v hk e (inl (dt, took)) =
      (update slot k (some dt), took_lem s t slot bits k dt path new v hk e took)
  went_lem s t slot bits k path new v hk e (inr stay) =
      (slot, stays_lem s t slot bits k path new v hk e stay)

  -- A key without a descriptor, with the slot that is free for it.
  pub waits :
      (s : Store) (slot : ℕ → Option ℕ) (bits : ℕ → ℕ → ℕ) (k : ℕ)
      → Inv s n hash slot bits
      → k < n
      → slot k ≡ none
      → Closed s s.dir (hash k) (bits k)
      → Waiting s (hash k) (key_path s.dir (hash k)) (bits k)
  waits s slot bits k v hk e c =
      let room : count_open slot n < n = count_open_lt slot n k hk e in
      record {
        bytes = c.content;
        head = c.head;
        opens = record {
          slot = (count_open slot n, v.idx, omega arith, v.free (count_open slot n) (omega arith));
          quiet = v.quiet;
          short = c.short;
          one = c.one;
          two = c.two;
          file = c.file;
          bytes = c.bytes;
        };
        there = refl;
        same = c.same;
      }
