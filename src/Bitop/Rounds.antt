-- ===== src/Bitop/Rounds.antt =====
-- The rounds of BITOP with the hook COUNTOP, and the whole command.
use native.Mathlib.Nat.{zero-mul, suc-mul}
use solidbits.Prelude.{
  ℕ, zero, suc, ◌+◌, ◌-◌, ◌≤◌, ◌<◌, ◌≡◌, ◌≢◌, ◌⊎◌, refl, sym, ap, subst, ◌∙◌, inl, inr, Option,
  none, some, List, [], ◌∷◌, map, length, ◌==◌, ==_iff, true, false, Bool-cases, if◌then◌else◌,
  arith,
}
use solidbits.Store.{Store, pure, ◌>>=◌}
use solidbits.Store.Quiet.{next_quiet}
use solidbits.Stdio.{failed}
use solidbits.Stdio.Transfer.{view}
use solidbits.Popcount.Spec.{count_ones, AreBytes}
use solidbits.Bitop.{OpOptions, byte_loop}
use solidbits.Bitop.Eight.{AreBuffers}
use solidbits.Bitop.Round.{
  Source, longest, reads_left, last_read, op_loop, op_malloc, bitop_with, int_bound,
}
use solidbits.Bitop.Windows.{window}
use solidbits.Bitop.Plan.{Left-step, Reads}
use solidbits.Bitop.Sources.{AllRead, AllFollow, AllFollow-step, fill_buffers_lem, plan_sources_lem}
use solidbits.Bitop.Longest.{greatest, Stands, Stands-Advanced, longest_lem}
use solidbits.Bitop.Counted.{
  countop, counted, bits_from, bits_from-past, op_loop-over, op_loop_round, round_size, round_total,
  Counts,
}

-- The last round.
rounds_end :
    (fuel cap : ℕ) (op : OpOptions) (j : ℕ) (ss : List Source) (o bits len : ℕ) (s : Store)
    (b0 : List ℕ) (bss : List (List ℕ))
    → AreBytes b0
    → AreBuffers bss
    → AllFollow s cap o ss (b0 ∷ bss)
    → reads_left ss j ≡ 1
    → o + last_read ss j ≡ len
    → last_read ss j ≤ cap
    → len < int_bound
    → Counts (suc fuel) cap op j ss o bits s (bits + bits_from op o len b0 bss)
rounds_end fuel cap op j ss o bits len s b0 bss b bs f e sum q low =
    let (t, ss', run, v, adv) = fill_buffers_lem s cap o ss (b0 ∷ bss) f in
    let (fewer, last) = Stands-Advanced ss ss' j adv in
    let over : reads_left ss' j ≡ 0 = omega (arith, fewer, e) in
    let size : round_size cap (reads_left ss' j) (last_read ss' j) ≡ last_read ss j =
      ap (λ n. round_size cap n (last_read ss' j)) over ∙ last in
    let bits' : ℕ = bits + counted op (last_read ss j) (window cap o b0) (map (window cap o) bss) in
    (
      t,
      op_loop_round fuel cap op j 0 ss ss' o bits s t _ _ e run (omega (arith, size, sum, low))
          ∙ ap
              (λ n.
                op_loop fuel cap (countop op) none j ss' (o + n)
                  (bits + counted op n (window cap o b0) (map (window cap o) bss)) t)
              size
          ∙ op_loop-over fuel cap op j ss' (o + last_read ss j) bits' t over
          ∙ ap (λ n. some (some n, t))
              (omega (
                arith,
                round_total op cap o (last_read ss j) len bits b0 bss q (omega (arith, sum)) b bs,
                bits_from-past op (o + last_read ss j) len b0 bss (omega (arith, sum)),
              )),
      v,
    )

whole_round : (cap k r : ℕ) → round_size cap (suc k) r ≡ cap
whole_round cap k r = ground arith

rounds :
    (fuel cap : ℕ) (op : OpOptions) (j : ℕ) (ss : List Source) (o bits len : ℕ) (s : Store)
    (b0 : List ℕ) (bss : List (List ℕ))
    → AreBytes b0
    → AreBuffers bss
    → AllFollow s cap o ss (b0 ∷ bss)
    → Stands cap o len ss j
    → reads_left ss j ≤ fuel
    → len < int_bound
    → Counts fuel cap op j ss o bits s (bits + bits_from op o len b0 bss)
rounds fuel cap op j ss o bits len s b0 bss b bs f (inl (e, past)) enough low =
    let none_left : bits ≡ bits + bits_from op o len b0 bss =
      omega (arith, bits_from-past op o len b0 bss past) in
    (s, op_loop-over fuel cap op j ss o bits s e ∙ ap (λ n. some (some n, s)) none_left, refl)
rounds zero cap op j ss o bits len s b0 bss b bs f (inr (k, e, sum, p, q)) enough low =
    absurd (omega (arith, e))
rounds (suc fuel) cap op j ss o bits len s b0 bss b bs f (inr (zero, e, sum, p, q)) enough low =
    rounds_end fuel cap op j ss o bits len s b0 bss b bs f e (omega (arith, sum, zero-mul cap)) q
      low
rounds (suc fuel) cap op j ss o bits len s b0 bss b bs f (inr (suc k, e, sum, p, q)) enough low =
    let (t, ss', run, v, adv) = fill_buffers_lem s cap o ss (b0 ∷ bss) f in
    let (fewer, last) = Stands-Advanced ss ss' j adv in
    let left : reads_left ss' j ≡ suc k = omega (arith, fewer, e) in
    let size : round_size cap (reads_left ss' j) (last_read ss' j) ≡ cap =
      ap (λ n. round_size cap n (last_read ss' j)) left ∙ whole_round cap k (last_read ss' j) in
    let bits' : ℕ = bits + counted op cap (window cap o b0) (map (window cap o) bss) in
    let stands : Stands cap (o + cap) len ss' j =
      rw (fewer, last)
        (Left-step cap o len (reads_left ss j) (last_read ss j) (inr (suc k, e, sum, p, q))) in
    let (u, run', v') =
      rounds fuel cap op j ss' (o + cap) bits' len t b0 bss b bs
        (AllFollow-step s t cap o ss ss' (b0 ∷ bss) v adv f) stands (omega (arith, left, enough, e))
        low in
    (
      u,
      op_loop_round fuel cap op j (suc k) ss ss' o bits s t _ _ e run
            (omega (arith, size, sum, suc-mul k cap, low))
          ∙ ap
              (λ n.
                op_loop fuel cap (countop op) none j ss' (o + n)
                  (bits + counted op n (window cap o b0) (map (window cap o) bss)) t)
              size
          ∙ run'
          ∙ ap (λ n. some (some n, u))
              (round_total op cap o cap len bits b0 bss (omega arith)
                (omega (arith, sum, suc-mul k cap)) b bs),
      v' ∙ v,
    )

pub op_malloc_quiet : (n : ℕ) (s : Store) → s.faults ≡ [] → op_malloc n s ≡ some (false, s)
unfolding op_malloc
op_malloc_quiet zero s h = refl
op_malloc_quiet (suc n) s h =
    ap
      (λ r. elim r [
        | none ↦ none
        | some (fault, t) ↦ (if failed fault then pure true else op_malloc n) t
      ])
      (next_quiet s h)
    ∙ op_malloc_quiet n s h

Reads-AreBytes : (s : Store) (dt : Option ℕ) (bs : List ℕ) → Reads s dt bs → AreBytes bs
Reads-AreBytes s none bs h = subst AreBytes (sym h) tt
Reads-AreBytes s (some dt) bs (path, h) = h.bytes

pub AllRead-AreBuffers :
    (s : Store) (dts : List (Option ℕ)) (bss : List (List ℕ)) → AllRead s dts bss → AreBuffers bss
AllRead-AreBuffers s [] [] h = tt
AllRead-AreBuffers s [] (bs ∷ bss) h = absurd h
AllRead-AreBuffers s (dt ∷ dts) [] h = absurd h
AllRead-AreBuffers s (dt ∷ dts) (bs ∷ bss) h =
    (Reads-AreBytes s dt bs h.0, AllRead-AreBuffers s dts bss h.1)

bits_from_start :
    (op : OpOptions) (g : ℕ) (b0 : List ℕ) (bss : List (List ℕ))
    → bits_from op 0 g b0 bss ≡ count_ones (byte_loop op g 0 b0 bss)
bits_from_start op g b0 bss =
    let whole : g - 0 ≡ g = omega arith in ap (λ n. count_ones (byte_loop op n 0 b0 bss)) whole

-- If there is a byte at all, the scan has found a source.
pub longest-Stands :
    (cap : ℕ) (ss : List Source) (g : ℕ)
    → (((longest ss 0 0 0).0 ≡ 0) × (g ≡ 0))
      ⊎ ((j : ℕ) × ((longest ss 0 0 0).0 ≡ 0 + j) × Stands cap 0 g ss j)
    → g ≢ 0
    → Stands cap 0 g ss (longest ss 0 0 0).0
longest-Stands cap ss g (inl (here, nothing)) ne = absurd (ne nothing)
longest-Stands cap ss g (inr (j, there, st)) ne =
    subst (Stands cap 0 g ss) (omega (arith, there)) st

-- For a buffer of any size above 0, sources that are open and in step with their files or have none,
-- each of less than 2^31 bytes, and no failing call, BITOP with COUNTOP returns the number of set bits of the bytes combined one by
-- one, as many as the longest source has, with zeros for what the shorter ones lack; no file changes.
pub bitop_with_count :
    (s : Store) (cap : ℕ) (op : OpOptions) (dts : List (Option ℕ)) (b0 : List ℕ)
    (bss : List (List ℕ))
    → 0 < cap
    → s.faults ≡ []
    → AllRead s dts (b0 ∷ bss)
    → greatest (b0 ∷ bss) 0 < int_bound
    → (t : Store) × (bitop_with cap (countop op) none dts s
        ≡ some (some (count_ones (byte_loop op (greatest (b0 ∷ bss) 0) 0 b0 bss)), t))
      × (view t ≡ view s)
unfolding bitop_with
bitop_with_count s cap op dts b0 bss pos quiet h low =
    let (ss, plan, f) = plan_sources_lem s cap dts (b0 ∷ bss) pos h in
    let bytes = AllRead-AreBuffers s dts (b0 ∷ bss) h in
    let g : ℕ = greatest (b0 ∷ bss) 0 in
    let (size, which) = longest_lem s cap 0 ss (b0 ∷ bss) 0 0 0 f in
    elim (Bool-cases (g == 0)) [
      | inl empty ↦
          let nothing : g ≡ 0 = (==_iff g 0).0 empty in
          let none_set : 0 ≡ count_ones (byte_loop op g 0 b0 bss) =
            sym (bits_from-past op 0 g b0 bss (omega (arith, nothing)))
            ∙ bits_from_start op g b0 bss in
          (s, rw (plan, ◌>>=◌, size, empty) (ap (λ n. some (some n, s)) none_set), refl)
      | inr some_bytes ↦
          let maxidx : ℕ = (longest ss 0 0 0).0 in
          let (t, run, v) =
            rounds (reads_left ss maxidx) cap op maxidx ss 0 0 g s b0 bss bytes.0 bytes.1 f
              (longest-Stands cap ss g which (ground (arith, some_bytes))) (omega arith) low in
          (
            t,
            rw (plan, ◌>>=◌, size, some_bytes, op_malloc_quiet (length dts) s quiet)
                (run ∙ ap (λ n. some (some n, t)) (omega (arith, bits_from_start op g b0 bss))),
            v,
          )
    ]
