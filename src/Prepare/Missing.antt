-- ===== src/Prepare/Missing.antt =====
-- `prepare_file` with mode 1 for a key that has no file.
use solidbits.Prelude.{inr, ℕ, ◌≡◌, ◌≢◌, refl, sym, subst, ◌∙◌, Option, some, List, [], arith}
use solidbits.Store.{absent, Store, ◌>>=◌}
use solidbits.Paths.{level_one, level_two, key_path}
use solidbits.Paths.Made.{
  both_made, gen_path_lem, both_made_file, both_made_other, both_made_dirs, CanBeDir, both_made_one,
  both_made_two,
}
use solidbits.Table.Oldest.{UsedBefore}
use solidbits.Prepare.{
  ended, enter, after_walk, prepare_file, open_file, open_node, open_absent, existing, not_found,
}
use solidbits.Prepare.Lookup.{looked_up}
use solidbits.Prepare.Open.{Gives, open_path_lem}
use solidbits.Paths.Lengths.{key_path_fits}
use solidbits.Prepare.Slot.{CanOpen, at_slot, slot_lem}

-- The key is not opened, and can be; only directories are made, and the scan has gone to a free slot.
pub record Waits (s t : Store) (hash : ℕ) (tmp : Option ℕ) : Type 0 where
  pub misses : looked_up t hash ≡ ended tmp 0
  pub opens : CanOpen t hash []
  pub dir : t.dir ≡ s.dir
  pub file : t.disk (key_path s.dir hash) ≡ absent
  pub heads : t.xxtable ≡ s.xxtable
  pub descs : t.descs ≡ s.descs
  pub used : UsedBefore s.descs s.idx t.idx
  pub dirs : (q : List ℕ) → CanBeDir (s.disk q) → CanBeDir (t.disk q)
  pub disk :
      (q : List ℕ) → level_one s.dir hash ≢ q → level_two s.dir hash ≢ q → t.disk q ≡ s.disk q

missing_lem :
    (s : Store) (hash : ℕ) (tmp : Option ℕ)
    → looked_up s hash ≡ ended tmp 0
    → s.disk (key_path s.dir hash) ≡ absent
    → CanOpen s hash []
    → (t : Store) × (enter hash existing tmp 0 s ≡ some (not_found, t)) × Waits s t hash tmp
unfolding enter open_file open_node open_absent
missing_lem s hash tmp h e c =
    let (j, ts, slot, below, free, used) = slot_lem s c.slot in
    let s1 : Store = at_slot s j ts in
    let s2 : Store = both_made s1 hash in
    let gone : s2.disk (key_path s.dir hash) ≡ absent = both_made_file s1 hash ∙ e in
    (
      s2,
      rw
          (
            slot,
            ◌>>=◌,
            gen_path_lem s1 hash c.quiet c.short c.one c.two,
            open_path_lem s2 j (key_path s.dir hash) existing c.quiet
                (key_path_fits s.dir hash c.short),
            gone,
          )
          refl,
      record {
        misses = h;
        opens = record {
          slot = (j, omega arith, below, free);
          quiet = c.quiet;
          short = c.short;
          one = inr (both_made_one s1 hash);
          two = inr (both_made_two s1 hash);
          file = subst (λ n. Gives n []) (sym gone) refl;
          bytes = tt;
        };
        dir = refl;
        file = gone;
        heads = refl;
        descs = refl;
        used = used;
        dirs = both_made_dirs s1 hash;
        disk = both_made_other s1 hash;
      },
    )

-- The answer is that there is no file; its directories are made, and the key can still be opened.
pub prepare_file_missing :
    (xxh64 : List ℕ → ℕ) (key : List ℕ) (s : Store) (tmp : Option ℕ)
    → looked_up s (xxh64 key) ≡ ended tmp 0
    → s.disk (key_path s.dir (xxh64 key)) ≡ absent
    → CanOpen s (xxh64 key) []
    → (t : Store) × (prepare_file xxh64 key existing s ≡ some (not_found, t))
      × Waits s t (xxh64 key) tmp
unfolding prepare_file after_walk
prepare_file_missing xxh64 key s tmp h e c =
    let (t, run, w) = missing_lem s (xxh64 key) tmp h e c in (t, rw h run, w)
