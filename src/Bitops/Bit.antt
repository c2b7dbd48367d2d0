-- ===== src/Bitops/Bit.antt =====
-- One bit of a byte and of a string of bytes. Bit 0 of a string is the highest bit of its first byte.
use solidbits.Prelude.{
  ℕ, ◌-◌, ◌/◌, ◌%◌, ◌^◌, ◌≤◌, ◌<◌, bit_and, ◌≡◌, refl, Bool, true, List, [], ◌∷◌, length, get_or,
  get_or-past, ◌==◌, ==_iff, if◌then◌else◌, arith,
}
use solidbits.Bits.Table.{all_below, all_below_sound}
use solidbits.Bitops.{new_byte, truth}
use solidbits.Store.{overwrite}
use solidbits.Stdio.Overwrite.{get_or-overwrite}
use solidbits.Popcount.Spec.{AreBytes, AreBytes-get_or}

unfoldable pub bit_of : ℕ → ℕ → ℕ
bit_of byte bit = byte / 2 ^ bit % 2

unfoldable pub bit_at : List ℕ → ℕ → ℕ
bit_at bs i = bit_of (get_or bs (i / 8) 0) (7 - i % 8)

abbrev truth_agrees : ℕ → ℕ → Bool
truth_agrees b k = truth (bit_and b (2 ^ k)) == b / 2 ^ k % 2

truth_table : all_below 256 (λ b. all_below 8 (truth_agrees b)) ≡ true
truth_table = refl

pub truth-bit_and : (b k : ℕ) → b < 256 → k < 8 → truth (bit_and b (2 ^ k)) ≡ bit_of b k
unfolding bit_of
truth-bit_and b k hb hk = (==_iff _ _).0 (
    all_below_sound 8 (truth_agrees b) k
      (all_below_sound 256 (λ b. all_below 8 (truth_agrees b)) b truth_table hb) hk)

-- Every byte, every bit that is set in it, every value and every bit that is read back.
abbrev agrees : ℕ → ℕ → ℕ → ℕ → Bool
unfolding new_byte
agrees b k v j = new_byte b k v / 2 ^ j % 2 == (if k == j then v else b / 2 ^ j % 2)

abbrev agrees_at : ℕ → ℕ → ℕ → Bool
agrees_at b k v = all_below 8 (agrees b k v)

abbrev agrees_bit : ℕ → ℕ → Bool
agrees_bit b k = all_below 2 (agrees_at b k)

new_byte_table : all_below 256 (λ b. all_below 8 (agrees_bit b)) ≡ true
unfolding new_byte
new_byte_table = refl

pub bit_of-new_byte :
    (b k v j : ℕ)
    → b < 256
    → k < 8
    → v < 2
    → j < 8
    → bit_of (new_byte b k v) j ≡ (if k == j then v else bit_of b j)
unfolding bit_of new_byte
bit_of-new_byte b k v j hb hk hv hj =
    let all_k = all_below_sound 256 (λ b. all_below 8 (agrees_bit b)) b new_byte_table hb in
    let all_v = all_below_sound 8 (agrees_bit b) k all_k hk in
    let all_j = all_below_sound 2 (agrees_at b k) v all_v hv in
    (==_iff _ _).0 (all_below_sound 8 (agrees b k v) j all_j hj)

pub new_byte-lt : (b k v : ℕ) → new_byte b k v < 256
unfolding new_byte
new_byte-lt b k v = omega arith

bit_of-zero : (k : ℕ) → bit_of 0 k ≡ 0
unfolding bit_of
bit_of-zero k = omega arith

-- Past the end of a string every bit is 0.
pub bit_at_past : (bs : List ℕ) (i : ℕ) → length bs ≤ i / 8 → bit_at bs i ≡ 0
unfolding bit_at
bit_at_past bs i h = rw (get_or-past bs (i / 8) 0 h) (bit_of-zero (7 - i % 8))

-- The bits of a string in which one byte has been given a new bit.
pub bit_at-overwrite :
    (bs : List ℕ) (offset v i : ℕ)
    → AreBytes bs
    → v < 2
    → bit_at
        (overwrite bs (offset / 8) (new_byte (get_or bs (offset / 8) 0) (7 - offset % 8) v ∷ []))
        i
      ≡ (if offset == i then v else bit_at bs i)
unfolding bit_at
bit_at-overwrite bs offset v i h hv = ground (
  arith,
  get_or-overwrite bs (offset / 8) (new_byte (get_or bs (offset / 8) 0) (7 - offset % 8) v ∷ [])
      (i / 8),
  bit_of-new_byte (get_or bs (offset / 8) 0) (7 - offset % 8) v (7 - i % 8)
      (AreBytes-get_or bs (offset / 8) h) (omega arith) hv (omega arith),
)
