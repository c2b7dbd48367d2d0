-- ===== src/Bitop/Counted.antt =====
-- BITOP with the hook COUNTOP: however the files are cut into buffers, the result is the number of set
-- bits of the combined files.
use solidbits.Prelude.{
  lt→ltb, ◌<◌, ℕ, zero, suc, ◌+◌, ◌-◌, ◌≤◌, ◌≡◌, refl, ap, ◌∙◌, none, some, List, [], ◌∷◌, map,
  take-length, length, ◌==◌, ==_iff, true, false, if◌then◌else◌, arith,
}
use solidbits.Store.{Store, ◌>>=◌}
use solidbits.Stdio.Transfer.{view}
use solidbits.Popcount.{redis_popcount}
use solidbits.Popcount.Spec.{count_ones, count_ones-append, AreBytes}
use solidbits.Popcount.Correct.{redis_popcount_lem}
use solidbits.Bitop.{OpOptions, count_op, byte_loop, combine_buffers}
use solidbits.Bitop.Eight.{AreBuffers}
use solidbits.Bitop.Wide.{combine_buffers_lem, byte_loop-add}
use solidbits.Bitop.Round.{
  int_bound, BitopCmd, Source, fill_buffers, reads_left, last_read, put_result, op_loop,
}
use solidbits.Bitop.Windows.{window, window-AreBytes, windows-AreBuffers, byte_loop-windows}
use solidbits.Bitop.Bytes.{byte_loop-AreBytes}

-- The buffers of a round, combined.
pub combine_buffers-windows :
    (op : OpOptions) (cap o size : ℕ) (b0 : List ℕ) (bss : List (List ℕ))
    → size ≤ cap
    → AreBytes b0
    → AreBuffers bss
    → combine_buffers op size (window cap o b0) (map (window cap o) bss)
      ≡ byte_loop op size o b0 bss
combine_buffers-windows op cap o size b0 bss fits b bs =
    combine_buffers_lem op size (window cap o b0) (map (window cap o) bss)
      (window-AreBytes cap o b0 b) (windows-AreBuffers cap o bss bs)
    ∙ byte_loop-windows op cap o size b0 bss fits

-- What one round adds to `bits`.
round_bits :
    (op : OpOptions) (cap o size : ℕ) (b0 : List ℕ) (bss : List (List ℕ))
    → size ≤ cap
    → AreBytes b0
    → AreBuffers bss
    → let result = combine_buffers op size (window cap o b0) (map (window cap o) bss) in
      redis_popcount result (length result) ≡ count_ones (byte_loop op size o b0 bss)
round_bits op cap o size b0 bss fits b bs =
    let bytes : List ℕ = byte_loop op size o b0 bss in
    ap (λ r. redis_popcount r (length r)) (combine_buffers-windows op cap o size b0 bss fits b bs)
    ∙ redis_popcount_lem bytes (length bytes) (byte_loop-AreBytes op size o b0 bss b bs)
    ∙ ap count_ones (take-length (length bytes) bytes (omega arith))

-- The bits of the bytes from `o` to `len`.
abbrev pub bits_from : OpOptions → ℕ → ℕ → List ℕ → List (List ℕ) → ℕ
bits_from op o len b0 bss = count_ones (byte_loop op (len - o) o b0 bss)

bits_from-split :
    (op : OpOptions) (o size len : ℕ) (b0 : List ℕ) (bss : List (List ℕ))
    → o + size ≤ len
    → bits_from op o len b0 bss
      ≡ count_ones (byte_loop op size o b0 bss) + bits_from op (o + size) len b0 bss
bits_from-split op o size len b0 bss h =
    let split : len - o ≡ size + (len - (o + size)) = omega arith in
    ap (λ n. count_ones (byte_loop op n o b0 bss)) split
    ∙ ap count_ones (byte_loop-add op size (len - (o + size)) o b0 bss)
    ∙ count_ones-append (byte_loop op size o b0 bss) _

pub bits_from-past :
    (op : OpOptions) (o len : ℕ) (b0 : List ℕ) (bss : List (List ℕ))
    → len ≤ o
    → bits_from op o len b0 bss ≡ 0
unfolding byte_loop count_ones
bits_from-past op o len b0 bss h =
    let none_left : len - o ≡ 0 = omega arith in
    ap (λ n. count_ones (byte_loop op n o b0 bss)) none_left

-- The command as the parser makes it for COUNTOP.
abbrev pub countop : OpOptions → BitopCmd
countop op = record { key = []; hook = count_op; option = op }

-- The loop ends when the longest source has no read left.
pub op_loop-over :
    (fuel cap : ℕ) (op : OpOptions) (j : ℕ) (ss : List Source) (o bits : ℕ) (s : Store)
    → reads_left ss j ≡ 0
    → op_loop fuel cap (countop op) none j ss o bits s ≡ some (some bits, s)
unfolding op_loop
op_loop-over zero cap op j ss o bits s e =
    let over : (reads_left ss j == 0) ≡ true = (==_iff _ _).1 e in rw over
op_loop-over (suc fuel) cap op j ss o bits s e =
    let over : (reads_left ss j == 0) ≡ true = (==_iff _ _).1 e in rw over

-- The size of a round, from the reads that are left after it and the size of the last one.
abbrev pub round_size : ℕ → ℕ → ℕ → ℕ
round_size cap t r = if t == 0 then r else cap

-- The bits of a round, from its buffers.
abbrev pub counted : OpOptions → ℕ → List ℕ → List (List ℕ) → ℕ
counted op size p0 ps =
    let result = combine_buffers op size p0 ps in redis_popcount result (length result)

pub op_loop_round :
    (fuel cap : ℕ) (op : OpOptions) (j n : ℕ) (ss ss' : List Source) (o bits : ℕ) (s t : Store)
    (p0 : List ℕ) (ps : List (List ℕ))
    → reads_left ss j ≡ suc n
    → fill_buffers cap o ss s ≡ some ((p0 ∷ ps, ss'), t)
    → o + round_size cap (reads_left ss' j) (last_read ss' j) < int_bound
    → let size = round_size cap (reads_left ss' j) (last_read ss' j) in
      op_loop (suc fuel) cap (countop op) none j ss o bits s
      ≡ op_loop fuel cap (countop op) none j ss' (o + size) (bits + counted op size p0 ps) t
unfolding op_loop put_result
op_loop_round fuel cap op j n ss ss' o bits s t p0 ps e run low =
    let more : (reads_left ss j == 0) ≡ false = ground (arith, e) in
    let fits = lt→ltb _ _ low in rw (more, run, ◌>>=◌, fits) refl

abbrev pub Counts : ℕ → ℕ → OpOptions → ℕ → List Source → ℕ → ℕ → Store → ℕ → Type 0
Counts fuel cap op j ss o bits s total =
    (t : Store) × (op_loop fuel cap (countop op) none j ss o bits s ≡ some (some total, t))
    × (view t ≡ view s)

-- The bits after a round of `size` bytes.
pub round_total :
    (op : OpOptions) (cap o size len bits : ℕ) (b0 : List ℕ) (bss : List (List ℕ))
    → size ≤ cap
    → o + size ≤ len
    → AreBytes b0
    → AreBuffers bss
    → bits
        + counted op size (window cap o b0) (map (window cap o) bss)
        + bits_from op (o + size) len b0 bss
      ≡ bits + bits_from op o len b0 bss
round_total op cap o size len bits b0 bss fits within b bs =
    omega (
      arith,
      round_bits op cap o size b0 bss fits b bs,
      bits_from-split op o size len b0 bss within,
    )
