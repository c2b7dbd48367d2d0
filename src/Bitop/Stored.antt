-- ===== src/Bitop/Stored.antt =====
-- BITOP without a hook, the whole command.
use solidbits.Prelude.{
  ℕ, ◌+◌, ◌/◌, ◌%◌, ◌<◌, ◌≡◌, ◌≢◌, refl, sym, ap, ap₂, subst, ◌∙◌, inl, inr, Option, none, some,
  List, [], ◌∷◌, ◌++◌, drop, length, ◌==◌, ==_iff, Bool-cases, if◌then◌else◌, arith,
}
use solidbits.Store.{Store, regular, update_disk, ◌>>=◌}
use solidbits.Store.Paths.{update_disk_same}
use solidbits.Stdio.Holds.{Holds}
use solidbits.Bitop.{OpOptions, byte_loop}
use solidbits.Bitop.Round.{
  Source, longest, reads_left, bitop_with, int_bound, plan_source, plan_sources,
}
use solidbits.Bitop.Sources.{AllRead, plan_sources_lem}
use solidbits.Bitop.Longest.{greatest, Stands, longest_lem}
use solidbits.Bitop.Rounds.{op_malloc_quiet, AllRead-AreBuffers, longest-Stands}
use solidbits.Bitop.Dest.{plainop, AreApart, so_far}
use solidbits.Bitop.Written.{descs_of, Reached, Writes, rounds_write}

planned_desc :
    (s : Store) (cap : ℕ) (dt : Option ℕ)
    → (src : Source) × (plan_source cap dt s ≡ some (src, s)) × (src.desc ≡ dt)
unfolding plan_source
planned_desc s cap none = (record { desc = none; len = 0; t = 0; r = 0 }, refl, refl)
planned_desc s cap (some dt) =
    let whole = (s.descs dt).length % cap == 0 in
    (
      record {
        desc = some dt;
        len = (s.descs dt).length;
        t = if whole then (s.descs dt).length / cap else (s.descs dt).length / cap + 1;
        r = if whole then cap else (s.descs dt).length % cap;
      },
      refl,
      refl,
    )

planned_descs :
    (s : Store) (cap : ℕ) (dts : List (Option ℕ))
    → (ss : List Source) × (plan_sources cap dts s ≡ some (ss, s)) × (descs_of ss ≡ dts)
unfolding plan_sources
planned_descs s cap [] = ([], refl, refl)
planned_descs s cap (dt ∷ dts) =
    let (src, run, e) = planned_desc s cap dt in
    let (ss, run', e') = planned_descs s cap dts in (src ∷ ss, rw (run, ◌>>=◌, run'), ap₂ ◌∷◌ e e')

abbrev result_of : Option (List Source × Store) → List Source
result_of none = []
result_of (some (ss, s)) = ss

plan_sources-descs :
    (s : Store) (cap : ℕ) (dts : List (Option ℕ)) (ss : List Source)
    → plan_sources cap dts s ≡ some (ss, s)
    → descs_of ss ≡ dts
plan_sources-descs s cap dts ss e =
    let (ss', e', d) = planned_descs s cap dts in ap (λ r. descs_of (result_of r)) (sym e ∙ e') ∙ d

so_far_start :
    (op : OpOptions) (b0 : List ℕ) (bss : List (List ℕ)) (d0 : List ℕ) → so_far op 0 b0 bss d0 ≡ d0
unfolding byte_loop
so_far_start op b0 bss d0 = refl

-- The reads of the longest source, where there is a byte at all.
rounds_from_start :
    (cap : ℕ) (key : List ℕ) (op : OpOptions) (dest : ℕ) (pd : List ℕ) (j : ℕ) (b0 : List ℕ)
    (bss : List (List ℕ)) (d0 : List ℕ) (ss : List Source) (g : ℕ) (s : Store)
    → Reached cap key op dest pd j b0 bss d0 s 0 ss
    → Stands cap 0 g ss j
    → g ≢ 0
    → g < int_bound
    → Writes cap key op dest pd j b0 bss d0 (reads_left ss j) ss 0 0 s g
rounds_from_start cap key op dest pd j b0 bss d0 ss g s h (inl (e, past)) ne low =
    absurd (ne (omega arith))
rounds_from_start cap key op dest pd j b0 bss d0 ss g s h (inr (k, e, sum, pos, fits)) ne low =
    rounds_write cap key op dest pd j b0 bss d0 (reads_left ss j) k ss 0 0 g s h e sum pos fits
      (omega (arith, e)) low

-- Sources that are open and in step with their files, or have none, and a destination that is open and
-- in step with its file, whose descriptor and file are none of the sources'; each source of less
-- than 2^31 bytes, a buffer of any size above 0 and no failing call: BITOP without a hook returns the length of the longest source. The
-- destination then holds that many bytes, the sources' bytes combined one by one with zeros for what
-- the shorter ones lack, and after them what it held there before; no other file has changed.
pub bitop_with_dest :
    (s : Store) (cap : ℕ) (key : List ℕ) (op : OpOptions) (dts : List (Option ℕ)) (b0 : List ℕ)
    (bss : List (List ℕ)) (dest : ℕ) (pd d0 : List ℕ)
    → 0 < cap
    → AllRead s dts (b0 ∷ bss)
    → Holds s dest pd d0
    → AreApart s dest pd dts
    → greatest (b0 ∷ bss) 0 < int_bound
    → let g = greatest (b0 ∷ bss) 0 in
      let now = byte_loop op g 0 b0 bss ++ drop g d0 in
      (t : Store) × (bitop_with cap (plainop key op) (some dest) dts s ≡ some (some g, t))
      × Holds t dest pd now
      × (t.disk ≡ update_disk s.disk pd (regular now))
unfolding bitop_with
bitop_with_dest s cap key op dts b0 bss dest pd d0 pos h holds apart low =
    let (ss, plan, f) = plan_sources_lem s cap dts (b0 ∷ bss) pos h in
    let bytes = AllRead-AreBuffers s dts (b0 ∷ bss) h in
    let g : ℕ = greatest (b0 ∷ bss) 0 in
    let (size, which) = longest_lem s cap 0 ss (b0 ∷ bss) 0 0 0 f in
    let start = so_far_start op b0 bss d0 in
    elim (Bool-cases (g == 0)) [
      | inl empty ↦
          let nothing : g ≡ 0 = (==_iff g 0).0 empty in
          let same : so_far op g b0 bss d0 ≡ d0 = ap (λ n. so_far op n b0 bss d0) nothing ∙ start in
          (
            s,
            rw (plan, ◌>>=◌, size, empty) (ap (λ n. some (some n, s)) (sym nothing)),
            subst (Holds s dest pd) (sym same) holds,
            update_disk_same s.disk pd (regular d0) holds.is_open.file
                ∙ ap (λ bs. update_disk s.disk pd (regular bs)) (sym same),
          )
      | inr some_bytes ↦
          let maxidx : ℕ = (longest ss 0 0 0).0 in
          let (t, run, after, disk) =
            rounds_from_start cap key op dest pd maxidx b0 bss d0 ss g s
              (record {
                bytes = bytes;
                sources = f;
                apart =
                    subst (AreApart s dest pd) (sym (plan_sources-descs s cap dts ss plan)) apart;
                holds = subst (Holds s dest pd) (sym start) holds;
              })
              (longest-Stands cap ss g which (ground (arith, some_bytes)))
              (ground (arith, some_bytes)) low in
          (
            t,
            rw (plan, ◌>>=◌, size, some_bytes, op_malloc_quiet (length dts) s holds.is_open.quiet)
                run,
            after,
            disk,
          )
    ]
