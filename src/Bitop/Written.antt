-- ===== src/Bitop/Written.antt =====
-- The rounds of BITOP without a hook.
use native.Mathlib.Nat.{zero-mul, suc-mul}
use solidbits.Prelude.{
  ℕ, zero, suc, ◌+◌, ◌*◌, ◌≤◌, ◌<◌, ◌≡◌, refl, sym, ap, ap₂, subst, ◌∙◌, Option, none, some, List,
  [], ◌∷◌, map, ◌==◌, ==_iff, true, arith,
}
use solidbits.Store.{Store, regular, update_disk}
use solidbits.Store.Paths.{update_disk_twice}
use solidbits.Stdio.{write_to}
use solidbits.Stdio.Transfer.{view}
use solidbits.Stdio.Holds.{Holds, Holds-view}
use solidbits.Popcount.Spec.{AreBytes}
use solidbits.Bitop.{OpOptions, byte_loop, combine_buffers}
use solidbits.Bitop.Eight.{AreBuffers}
use solidbits.Bitop.Round.{Source, reads_left, last_read, op_loop, int_bound}
use solidbits.Bitop.Windows.{window}
use solidbits.Bitop.Sources.{AllFollow, AllAdvanced, AllFollow-step, fill_buffers_lem}
use solidbits.Bitop.Longest.{Stands-Advanced}
use solidbits.Bitop.Counted.{combine_buffers-windows, round_size}
use solidbits.Bitop.Dest.{
  plainop, IsApart, AreApart, AreApart-written, AllFollow-written, so_far, op_loop_write,
  write_result, AllAdvanced-descs,
}

abbrev pub descs_of : List Source → List (Option ℕ)
descs_of = map (λ src. src.desc)

IsApart-view :
    (s t : Store) (dest : ℕ) (pd : List ℕ) (dt : Option ℕ)
    → view t ≡ view s
    → IsApart s dest pd dt
    → IsApart t dest pd dt
IsApart-view s t dest pd none v a = tt
IsApart-view s t dest pd (some dt) v (ne, np) =
    (ne, λ path e. np path (sym (ap (λ (x : Store). (x.descs dt).fd) v) ∙ e))

AreApart-view :
    (s t : Store) (dest : ℕ) (pd : List ℕ) (dts : List (Option ℕ))
    → view t ≡ view s
    → AreApart s dest pd dts
    → AreApart t dest pd dts
AreApart-view s t dest pd [] v a = tt
AreApart-view s t dest pd (dt ∷ dts) v (a, rest) =
    (IsApart-view s t dest pd dt v a, AreApart-view s t dest pd dts v rest)

module _ (cap : ℕ) (key : List ℕ) (op : OpOptions) (dest : ℕ) (pd : List ℕ) (j : ℕ) (b0 : List ℕ)
    (bss : List (List ℕ)) (d0 : List ℕ) where
  -- The store at offset `o`: the sources are where their reads have come to, and the destination holds
  -- the result up to there.
  pub record Reached (s : Store) (o : ℕ) (ss : List Source) : Type 0 where
    pub bytes : AreBytes b0 × AreBuffers bss
    pub sources : AllFollow s cap o ss (b0 ∷ bss)
    pub apart : AreApart s dest pd (descs_of ss)
    pub holds : Holds s dest pd (so_far op o b0 bss d0)

  round_writes :
      (fuel n size : ℕ) (ss : List Source) (o bits : ℕ) (s : Store)
      → Reached s o ss
      → reads_left ss j ≡ suc n
      → round_size cap n (last_read ss j) ≡ size
      → 0 < size
      → size ≤ cap
      → o + size < int_bound
      → (t : Store) × (ss' : List Source) × (op_loop
            (suc fuel)
            cap
            (plainop key op)
            (some dest)
            j
            ss
            o
            bits
            s
          ≡ op_loop fuel cap (plainop key op) (some dest) j ss' (o + size) bits t)
        × AllAdvanced ss ss'
        × AllFollow t cap (o + cap) ss' (b0 ∷ bss)
        × AreApart t dest pd (descs_of ss')
        × Holds t dest pd (so_far op (o + size) b0 bss d0)
        × (t.disk ≡ update_disk s.disk pd (regular (so_far op (o + size) b0 bss d0)))
  round_writes fuel n size ss o bits s h e sz pos fits low =
      let (t, ss', run, v, adv) = fill_buffers_lem s cap o ss (b0 ∷ bss) h.sources in
      let (fewer, last) = Stands-Advanced ss ss' j adv in
      let same : round_size cap (reads_left ss' j) (last_read ss' j) ≡ size =
        ap₂ (round_size cap) (omega (arith, fewer, e)) last ∙ sz in
      let (u, wr, wrote, w, holds, disk) =
        write_result t dest pd op o size b0 bss d0 (byte_loop op size o b0 bss) pos h.bytes.0
          h.bytes.1 (Holds-view s t dest pd _ v h.holds) refl in
      let result =
        ap (λ k. combine_buffers op k (window cap o b0) (map (window cap o) bss)) same
        ∙ combine_buffers-windows op cap o size b0 bss fits h.bytes.0 h.bytes.1 in
      let apart : AreApart t dest pd (descs_of ss') =
        subst (AreApart t dest pd) (sym (AllAdvanced-descs ss ss' adv))
          (AreApart-view s t dest pd (descs_of ss) v h.apart) in
      (
        u,
        ss',
        op_loop_write fuel cap key op dest j n _ ss ss' o bits s t u _ _ e run
              (omega (arith, same, low)) (ap (λ r. write_to dest r o t) result ∙ wr) wrote
            ∙ ap (λ k. op_loop fuel cap (plainop key op) (some dest) j ss' (o + k) bits u) same,
        adv,
        AllFollow-written t u dest pd _ _ o w cap (o + cap) ss' (b0 ∷ bss) apart
            (AllFollow-step s t cap o ss ss' (b0 ∷ bss) v adv h.sources),
        AreApart-written t u dest pd _ _ o w (descs_of ss') apart,
        holds,
        disk
            ∙ ap (λ (x : Store). update_disk x.disk pd (regular (so_far op (o + size) b0 bss d0)))
                v,
      )

  abbrev pub Writes : ℕ → List Source → ℕ → ℕ → Store → ℕ → Type 0
  Writes fuel ss o bits s len =
      (t : Store) × (op_loop fuel cap (plainop key op) (some dest) j ss o bits s
        ≡ some (some len, t))
      × Holds t dest pd (so_far op len b0 bss d0)
      × (t.disk ≡ update_disk s.disk pd (regular (so_far op len b0 bss d0)))

  op_loop_ended :
      (fuel : ℕ) (ss : List Source) (o bits : ℕ) (s : Store)
      → reads_left ss j ≡ 0
      → op_loop fuel cap (plainop key op) (some dest) j ss o bits s ≡ some (some o, s)
  unfolding op_loop
  op_loop_ended zero ss o bits s e =
      let over : (reads_left ss j == 0) ≡ true = (==_iff _ _).1 e in rw over
  op_loop_ended (suc fuel) ss o bits s e =
      let over : (reads_left ss j == 0) ≡ true = (==_iff _ _).1 e in rw over

  pub rounds_write :
      (fuel k : ℕ) (ss : List Source) (o bits len : ℕ) (s : Store)
      → Reached s o ss
      → reads_left ss j ≡ suc k
      → o + k * cap + last_read ss j ≡ len
      → 0 < last_read ss j
      → last_read ss j ≤ cap
      → suc k ≤ fuel
      → len < int_bound
      → Writes fuel ss o bits s len
  rounds_write zero k ss o bits len s h e sum pos fits enough low = absurd (omega arith)
  rounds_write (suc fuel) zero ss o bits len s h e sum pos fits enough low =
      let (t, ss', run, adv, f, a, holds, disk) =
        round_writes fuel 0 (last_read ss j) ss o bits s h e refl pos fits
          (omega (arith, sum, zero-mul cap, low)) in
      let (fewer, last) = Stands-Advanced ss ss' j adv in
      let end : o + last_read ss j ≡ len = omega (arith, sum, zero-mul cap) in
      (
        t,
        run
            ∙ op_loop_ended fuel ss' (o + last_read ss j) bits t (omega (arith, fewer, e))
            ∙ ap (λ n. some (some n, t)) end,
        subst (λ n. Holds t dest pd (so_far op n b0 bss d0)) end holds,
        disk ∙ ap (λ n. update_disk s.disk pd (regular (so_far op n b0 bss d0))) end,
      )
  rounds_write (suc fuel) (suc k) ss o bits len s h e sum pos fits enough low =
      let (t, ss', run, adv, f, a, holds, disk) =
        round_writes fuel (suc k) cap ss o bits s h e (ground arith) (omega arith) (omega arith)
          (omega (arith, sum, suc-mul k cap, low)) in
      let (fewer, last) = Stands-Advanced ss ss' j adv in
      let (u, run', holds', disk') =
        rounds_write fuel k ss' (o + cap) bits len t
          (record { bytes = h.bytes; sources = f; apart = a; holds = holds })
          (omega (arith, fewer, e)) (omega (arith, sum, last, suc-mul k cap)) (omega (arith, last))
          (omega (arith, last)) (omega arith) low in
      (
        u,
        run ∙ run',
        holds',
        disk'
            ∙ ap (λ d. update_disk d pd (regular (so_far op len b0 bss d0))) disk
            ∙ update_disk_twice s.disk pd _ _,
      )
