-- ===== src/Bitops/Count.antt =====
-- BITCOUNT counts the set bits of a range of bytes, whatever the size of its buffer.
use solidbits.Prelude.{
  ℕ, zero, suc, ◌+◌, ◌-◌, ◌≤◌, ◌<◌, ◌≡◌, refl, sym, ap, ◌∙◌, true, false, ◌&&◌, some, List, [], ◌∷◌,
  take, drop, length, take-add, drop-add, take-nil, take-length, drop-length, length-take,
  length-drop, inl, inr, Bool-cases, ltb, leb, ◌==◌, if◌then◌else◌, arith,
}
use solidbits.Prelude.Int.{ℤ, pos, negsuc, pos_part, ltb_ℤ, ◌+ℤ◌, ◌-ℤ◌}
use solidbits.Store.{Store, ◌>>=◌}
use solidbits.Stdio.Transfer.{view, IsOpen, IsOpen-view, read_from_lem}
use solidbits.Stdio.Holds.{Holds}
use solidbits.Popcount.{redis_popcount}
use solidbits.Popcount.Spec.{count_ones, count_ones-append, AreBytes, AreBytes-take, AreBytes-drop}
use solidbits.Popcount.Correct.{redis_popcount_lem}
use solidbits.Bitops.{
  BitcountCmd, bitcount_command, count_bytes, count_loop, file_buffer_size, from_end,
}

take_of-length {ℓ} : {A : Type ℓ} (n : ℕ) (xs : List A) → take (length (take n xs)) xs ≡ take n xs
take_of-length zero xs = refl
take_of-length (suc n) [] = refl
take_of-length (suc n) (x ∷ xs) = rw (take_of-length n xs)

-- What one round reads and what is left are the bytes that were to be counted.
round_split :
    (bs : List ℕ) (o remaining size : ℕ)
    → let r = length (take size (drop o bs)) in
      r ≤ remaining
      → count_ones (take remaining (drop o bs))
        ≡ count_ones (take size (drop o bs)) + count_ones (take (remaining - r) (drop (o + r) bs))
round_split bs o remaining size h =
    let r = length (take size (drop o bs)) in
    let e : remaining ≡ r + (remaining - r) = omega arith in
    ap (λ n. count_ones (take n (drop o bs))) e
    ∙ rw (
      take-add r (remaining - r) (drop o bs),
      count_ones-append,
      take_of-length size (drop o bs),
      drop-add o r bs,
    )

round_count :
    (bs : List ℕ) (o size : ℕ)
    → AreBytes bs
    → redis_popcount (take size (drop o bs)) (length (take size (drop o bs)))
      ≡ count_ones (take size (drop o bs))
round_count bs o size h =
    redis_popcount_lem (take size (drop o bs)) (length (take size (drop o bs)))
      (AreBytes-take size (drop o bs) (AreBytes-drop o bs h))
    ∙ ap count_ones
        (take-length (length (take size (drop o bs))) (take size (drop o bs)) (omega arith))

-- A round that reads nothing is at the end of the file.
nothing_read :
    (bs : List ℕ) (o remaining size : ℕ)
    → 0 < size
    → length (take size (drop o bs)) ≡ 0
    → count_ones (take remaining (drop o bs)) ≡ 0
unfolding count_ones
nothing_read bs o remaining size h e = rw (
  drop-length o bs (omega (arith, length-take size (drop o bs), length-drop o bs)),
  take-nil remaining,
)

count_ones-zero : (n : ℕ) (xs : List ℕ) → n ≡ 0 → count_ones (take n xs) ≡ 0
unfolding count_ones
count_ones-zero zero xs h = refl
count_ones-zero (suc n) xs h = absurd (omega arith)

module _ (cap dt : ℕ) (path bs : List ℕ) (room : 0 < cap) (bytes : AreBytes bs) where
  -- With as much fuel as there are bytes to count the loop ends, and has counted them.
  pub count_loop_lem :
      (fuel remaining o bits : ℕ) (s : Store)
      → remaining ≤ fuel
      → IsOpen s dt path bs
      → (t : Store) × (count_loop fuel cap dt remaining o bits s
          ≡ some (bits + count_ones (take remaining (drop o bs)), t))
        × (view t ≡ view s)
  unfolding count_loop
  count_loop_lem zero zero o bits s enough h =
      (s, rw empty_take (ap (λ n. some (n, s)) (omega arith)), refl)
    where
      empty_take : count_ones [] ≡ 0
      empty_take = unfold count_ones in refl
  count_loop_lem zero (suc remaining) o bits s enough h = absurd (omega arith)
  count_loop_lem (suc fuel) remaining o bits s enough h =
      let size = if ltb remaining cap then remaining else cap in
      let got = take size (drop o bs) in
      let r = length got in
      let (t, e, v) = read_from_lem s dt path bs size o h in
      elim (Bool-cases (remaining == 0)) [
        | inl done ↦ (
          s,
          rw done (ap (λ n. some (n, s)) (ground (arith, count_ones-zero remaining (drop o bs)))),
          refl,
        )
        | inr more ↦ elim (Bool-cases (r == 0)) [
          | inl stop ↦
              let nothing = nothing_read bs o remaining size (ground arith) (ground arith) in
              (t, rw (more, ◌>>=◌, e, stop, nothing) (ap (λ n. some (n, t)) (omega arith)), v)
          | inr go ↦
              let le : r ≤ remaining = ground (arith, length-take size (drop o bs)) in
              let (u, e', v') =
                count_loop_lem fuel (remaining - r) (o + r) (bits + redis_popcount got r) t
                  (ground arith) (IsOpen-view s t dt path bs v h) in
              let total : bits
                    + redis_popcount got r
                    + count_ones (take (remaining - r) (drop (o + r) bs))
                  ≡ bits + count_ones (take remaining (drop o bs)) =
                omega (arith, round_count bs o size bytes, round_split bs o remaining size le) in
              (u, rw (more, ◌>>=◌, e, go, e') (ap (λ n. some (n, u)) total), v' ∙ v)
        ]
      ]

-- The byte that an argument of BITCOUNT names: a negative one counts from the end, and one before
-- the first byte means the first.
abbrev pub position : ℤ → ℕ → ℕ
position (pos n) len = n
position (negsuc n) len = len - suc n

-- The set bits of the bytes from `start` to `end`, both included. Of two negative arguments in the
-- wrong order nothing is counted.
unfoldable pub ones_between : List ℕ → ℤ → ℤ → ℕ
ones_between bs start end =
    if ltb_ℤ start (pos 0) && ltb_ℤ end (pos 0) && ltb_ℤ end start
    then 0
    else count_ones (
        take (suc (position end (length bs)) - position start (length bs))
          (drop (position start (length bs)) bs))

from_end-position : (x : ℤ) (len : ℕ) → from_end x len ≡ position x len
unfolding ◌+ℤ◌
from_end-position (pos n) len = ground arith
from_end-position (negsuc n) len = ground arith

-- The last byte to count, as the command clamps it.
abbrev last_byte : ℕ → ℕ → ℤ
last_byte to strlen = if leb strlen to then pos strlen -ℤ pos 1 else pos to

clamped_empty :
    (bs : List ℕ) (first to : ℕ)
    → ltb_ℤ (last_byte to (length bs)) (pos first) ≡ true
    → count_ones (take (suc to - first) (drop first bs)) ≡ 0
unfolding count_ones ◌-ℤ◌
clamped_empty bs first to h = elim (Bool-cases (leb (length bs) to)) [
  | inl beyond ↦ rw (drop-length first bs (ground arith), take-nil (suc to - first))
  | inr within ↦ count_ones-zero (suc to - first) (drop first bs) (ground arith)
]

clamped_count :
    (bs : List ℕ) (first to : ℕ)
    → ltb_ℤ (last_byte to (length bs)) (pos first) ≡ false
    → count_ones (take (pos_part (last_byte to (length bs) -ℤ pos first +ℤ pos 1)) (drop first bs))
      ≡ count_ones (take (suc to - first) (drop first bs))
unfolding ◌+ℤ◌ ◌-ℤ◌
clamped_count bs first to h = elim (Bool-cases (leb (length bs) to)) [
  | inl beyond ↦ ap count_ones (
      take-length _ (drop first bs) (ground (arith, length-drop first bs))
      ∙ sym (take-length (suc to - first) (drop first bs) (ground (arith, length-drop first bs))))
  | inr within ↦ ap (λ n. count_ones (take n (drop first bs))) (ground arith)
]

count_bytes_lem :
    (s : Store) (dt : ℕ) (path bs : List ℕ) (start count : ℕ)
    → IsOpen s dt path bs
    → AreBytes bs
    → (t : Store) × (count_bytes dt start count s
        ≡ some (some (count_ones (take count (drop start bs))), t))
      × (view t ≡ view s)
unfolding count_bytes
count_bytes_lem s dt path bs start count h b =
    let (t, e, v) =
      count_loop_lem file_buffer_size dt path bs (omega arith) b count count start 0 s (omega arith)
        h in
    (t, rw (h.quiet, ◌>>=◌, e) (ap (λ n. some (some n, t)) (omega arith)), v)

-- In step with its file and with no failing call, BITCOUNT returns the number of set bits from the
-- byte of its first argument to the byte of its second, and changes no file. The buffer that the file
-- is read through does not show in the result.
pub bitcount_command_lem :
    (s : Store) (dt : ℕ) (path bs : List ℕ) (cmd : BitcountCmd)
    → Holds s dt path bs
    → (t : Store) × (bitcount_command cmd dt s ≡ some (some (ones_between bs cmd.start cmd.end), t))
      × (view t ≡ view s)
unfolding bitcount_command ones_between
bitcount_command_lem s dt path bs cmd h =
    let swapped = ltb_ℤ cmd.start (pos 0) && ltb_ℤ cmd.end (pos 0) && ltb_ℤ cmd.end cmd.start in
    let first = position cmd.start (length bs) in
    let to = position cmd.end (length bs) in
    let at_start = from_end-position cmd.start (length bs) in
    let at_end = from_end-position cmd.end (length bs) in
    elim (Bool-cases swapped) [
      | inl e ↦ (s, rw e, refl)
      | inr e ↦ elim (Bool-cases (ltb_ℤ (last_byte to (length bs)) (pos first))) [
        | inl none_left ↦ (
          s,
          rw (e, h.synced, at_end, at_start, none_left, clamped_empty bs first to none_left),
          refl,
        )
        | inr some_left ↦
            let count = pos_part (last_byte to (length bs) -ℤ pos first +ℤ pos 1) in
            let (t, run, v) = count_bytes_lem s dt path bs first count h.is_open h.bytes in
            (
              t,
              rw (e, h.synced, at_end, at_start, some_left, run)
                  (ap (λ n. some (some n, t)) (clamped_count bs first to some_left)),
              v,
            )
      ]
    ]
