-- ===== src/Bitop/Sources.antt =====
-- All the sources of BITOP together: how their reads are planned, what a round reads, and which source
-- is the longest.
use native.Mathlib.Nat.{div-add-mod'}
use solidbits.Prelude.{
  ℕ, ◌+◌, ◌/◌, ◌%◌, ◌<◌, ◌≡◌, refl, sym, ap, ◌∙◌, inl, inr, Option, none, some, List, [], ◌∷◌, map,
  length, ◌==◌, ==_iff, Bool-cases, arith,
}
use solidbits.Store.{Store, ◌>>=◌}
use solidbits.Stdio.Transfer.{view}
use solidbits.Bitop.Round.{Source, plan_source, plan_sources, fill_buffers}
use solidbits.Bitop.Windows.{window}
use solidbits.Bitop.Plan.{
  Left-start_whole, Left-start_part, Reads, Reads-view, Follows, Follows-step, Advanced,
  fill_buffer_lem,
}

abbrev pub AllRead : Store → List (Option ℕ) → List (List ℕ) → Type 0
AllRead s [] [] = Unit {0}
AllRead s [] (bs ∷ bss) = ⊥
AllRead s (dt ∷ dts) [] = ⊥
AllRead s (dt ∷ dts) (bs ∷ bss) = Reads s dt bs × AllRead s dts bss

abbrev pub AllFollow : Store → ℕ → ℕ → List Source → List (List ℕ) → Type 0
AllFollow s cap o [] [] = Unit {0}
AllFollow s cap o [] (bs ∷ bss) = ⊥
AllFollow s cap o (src ∷ ss) [] = ⊥
AllFollow s cap o (src ∷ ss) (bs ∷ bss) = Follows s cap o src bs × AllFollow s cap o ss bss

abbrev pub AllAdvanced : List Source → List Source → Type 0
AllAdvanced [] [] = Unit {0}
AllAdvanced [] (b ∷ bs) = ⊥
AllAdvanced (a ∷ ss) [] = ⊥
AllAdvanced (a ∷ ss) (b ∷ ss') = Advanced a b × AllAdvanced ss ss'

AllFollow-view :
    (s t : Store) (cap o : ℕ) (ss : List Source) (bss : List (List ℕ))
    → view t ≡ view s
    → AllFollow s cap o ss bss
    → AllFollow t cap o ss bss
AllFollow-view s t cap o [] [] v f = tt
AllFollow-view s t cap o [] (bs ∷ bss) v f = f
AllFollow-view s t cap o (src ∷ ss) [] v f = f
AllFollow-view s t cap o (src ∷ ss) (bs ∷ bss) v f = (
  record { size = f.0.size; reads = Reads-view s t src.desc bs v f.0.reads; left = f.0.left },
  AllFollow-view s t cap o ss bss v f.1,
)

pub AllFollow-step :
    (s t : Store) (cap o : ℕ) (ss ss' : List Source) (bss : List (List ℕ))
    → view t ≡ view s
    → AllAdvanced ss ss'
    → AllFollow s cap o ss bss
    → AllFollow t cap (o + cap) ss' bss
AllFollow-step s t cap o [] [] [] v w f = tt
AllFollow-step s t cap o [] [] (bs ∷ bss) v w f = f
AllFollow-step s t cap o [] (b ∷ ss') bss v w f = absurd w
AllFollow-step s t cap o (a ∷ ss) [] bss v w f = absurd w
AllFollow-step s t cap o (a ∷ ss) (b ∷ ss') [] v w f = f
AllFollow-step s t cap o (a ∷ ss) (b ∷ ss') (bs ∷ bss) v w f =
    (Follows-step s t cap o a b bs v w.0 f.0, AllFollow-step s t cap o ss ss' bss v w.1 f.1)

-- A round fills each buffer with a window on the bytes of its source.
pub fill_buffers_lem :
    (s : Store) (cap o : ℕ) (ss : List Source) (bss : List (List ℕ))
    → AllFollow s cap o ss bss
    → (t : Store) × (ss' : List Source) × (fill_buffers cap o ss s
        ≡ some ((map (window cap o) bss, ss'), t))
      × (view t ≡ view s)
      × AllAdvanced ss ss'
unfolding fill_buffers
fill_buffers_lem s cap o [] [] f = (s, [], refl, refl, tt)
fill_buffers_lem s cap o [] (bs ∷ bss) f = absurd f
fill_buffers_lem s cap o (src ∷ ss) [] f = absurd f
fill_buffers_lem s cap o (src ∷ ss) (bs ∷ bss) f =
    let (t, src', run, v, w) = fill_buffer_lem s cap o src bs f.0 in
    let (u, ss', run', v', w') =
      fill_buffers_lem t cap o ss bss (AllFollow-view s t cap o ss bss v f.1) in
    (u, src' ∷ ss', rw (run, ◌>>=◌, run'), v' ∙ v, (w, w'))

plan_source_lem :
    (s : Store) (cap : ℕ) (dt : Option ℕ) (bs : List ℕ)
    → 0 < cap
    → Reads s dt bs
    → (src : Source) × (plan_source cap dt s ≡ some (src, s)) × Follows s cap 0 src bs
unfolding plan_source
plan_source_lem s cap none bs pos h = (
  record { desc = none; len = 0; t = 0; r = 0 },
  refl,
  record { size = sym (ap length h); reads = h; left = inl (refl, omega (arith, ap length h)) },
)
plan_source_lem s cap (some dt) bs pos (path, h) =
    elim (Bool-cases ((s.descs dt).length % cap == 0)) [
      | inl whole ↦ (
        record {
          desc = some dt;
          len = (s.descs dt).length;
          t = (s.descs dt).length / cap;
          r = cap;
        },
        rw whole,
        record {
          size = h.synced;
          reads = (path, h);
          left = Left-start_whole cap (length bs) ((s.descs dt).length / cap) pos (
              omega (
                arith,
                div-add-mod' (s.descs dt).length cap,
                (==_iff ((s.descs dt).length % cap) 0).0 whole,
                h.synced,
              ));
        },
      )
      | inr part ↦ (
        record {
          desc = some dt;
          len = (s.descs dt).length;
          t = (s.descs dt).length / cap + 1;
          r = (s.descs dt).length % cap;
        },
        rw part,
        record {
          size = h.synced;
          reads = (path, h);
          left =
              rw⁻¹ (h.synced) (Left-start_part cap (s.descs dt).length pos (ground (arith, part)));
        },
      )
    ]

-- The plan is made for every source, and the store stays as it is.
pub plan_sources_lem :
    (s : Store) (cap : ℕ) (dts : List (Option ℕ)) (bss : List (List ℕ))
    → 0 < cap
    → AllRead s dts bss
    → (ss : List Source) × (plan_sources cap dts s ≡ some (ss, s)) × AllFollow s cap 0 ss bss
unfolding plan_sources
plan_sources_lem s cap [] [] pos h = ([], refl, tt)
plan_sources_lem s cap [] (bs ∷ bss) pos h = absurd h
plan_sources_lem s cap (dt ∷ dts) [] pos h = absurd h
plan_sources_lem s cap (dt ∷ dts) (bs ∷ bss) pos h =
    let (src, run, f) = plan_source_lem s cap dt bs pos h.0 in
    let (ss, run', f') = plan_sources_lem s cap dts bss pos h.1 in
    (src ∷ ss, rw (run, ◌>>=◌, run'), (f, f'))
