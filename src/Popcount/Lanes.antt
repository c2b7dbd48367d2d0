-- ===== src/Popcount/Lanes.antt =====
-- The three lines of the 32-bit count, each seen as four sums on bytes of their own.
use solidbits.Prelude.{
  ℕ, ◌+◌, ◌-◌, ◌*◌, ◌/◌, ◌%◌, ◌^◌, ◌≤◌, ◌<◌, bit_and, ◌≡◌, refl, leb, leb→le, ltb, ltb→lt, arith,
}
use solidbits.Bits.Table.{all_below_sound, eq_below}
use solidbits.Bits.Lanes.{bit_and-lanes}
use solidbits.Popcount.{sum_pairs, sum_nibbles, sum_bytes, swar}
use solidbits.Popcount.Spec.{byte_ones}

abbrev pub word : ℕ → ℕ → ℕ → ℕ → ℕ
word a b c d = a + 256 * (b + 256 * (c + 256 * d))

bit_and-word :
    (m a b c d : ℕ)
    → m < 256
    → a < 256
    → b < 256
    → c < 256
    → bit_and (word a b c d) (word m m m m)
      ≡ word (bit_and a m) (bit_and b m) (bit_and c m) (bit_and d m)
bit_and-word m a b c d hm ha hb hc = ground (
  arith,
  bit_and-lanes 8 (b + 256 * (c + 256 * d)) (m + 256 * (m + 256 * m)) a m,
  bit_and-lanes 8 (c + 256 * d) (m + 256 * m) b m,
  bit_and-lanes 8 d m c m,
)

-- The line on one byte.
abbrev pairs : ℕ → ℕ
pairs b = b - bit_and (b / 2) 0x55

abbrev nibbles : ℕ → ℕ
nibbles b = bit_and b 0x33 + bit_and (b / 4) 0x33

abbrev halves : ℕ → ℕ
halves b = (b + b / 16) % 16

pairs_mask : (t b : ℕ) → t < 2 → b < 256 → bit_and (b / 2 + 128 * t) 0x55 ≡ bit_and (b / 2) 0x55
pairs_mask t b ht hb = ground (
  arith,
  eq_below (λ x. bit_and (x / 2 + 128 * 1) 0x55) (λ x. bit_and (x / 2) 0x55) 256 refl b hb,
)

pairs_le : (b : ℕ) → b < 256 → bit_and (b / 2) 0x55 ≤ b
pairs_le b h = leb→le _ _ (all_below_sound 256 (λ x. leb (bit_and (x / 2) 0x55) x) b refl h)

pub sum_pairs-word :
    (a b c d : ℕ)
    → a < 256
    → b < 256
    → c < 256
    → d < 256
    → sum_pairs (word a b c d) ≡ word (pairs a) (pairs b) (pairs c) (pairs d)
unfolding sum_pairs
sum_pairs-word a b c d ha hb hc hd =
    let shift : word a b c d / 2
        ≡ word (a / 2 + 128 * (b % 2)) (b / 2 + 128 * (c % 2)) (c / 2 + 128 * (d % 2)) (d / 2) =
      omega arith in
    rw shift (
      omega (
        arith,
        bit_and-word 0x55 (a / 2 + 128 * (b % 2)) (b / 2 + 128 * (c % 2)) (c / 2 + 128 * (d % 2))
            (d / 2) (omega arith) (omega arith) (omega arith) (omega arith),
        pairs_mask (b % 2) a (omega arith) ha,
        pairs_mask (c % 2) b (omega arith) hb,
        pairs_mask (d % 2) c (omega arith) hc,
        pairs_le a ha,
        pairs_le b hb,
        pairs_le c hc,
        pairs_le d hd,
      ))

nibbles_mask : (t b : ℕ) → t < 4 → b < 256 → bit_and (b / 4 + 64 * t) 0x33 ≡ bit_and (b / 4) 0x33
nibbles_mask t b ht hb = ground (
  arith,
  eq_below (λ x. bit_and (x / 4 + 64 * 1) 0x33) (λ x. bit_and (x / 4) 0x33) 256 refl b hb,
  eq_below (λ x. bit_and (x / 4 + 64 * 2) 0x33) (λ x. bit_and (x / 4) 0x33) 256 refl b hb,
  eq_below (λ x. bit_and (x / 4 + 64 * 3) 0x33) (λ x. bit_and (x / 4) 0x33) 256 refl b hb,
)

nibbles-lt : (b : ℕ) → b < 256 → nibbles b < 256
nibbles-lt b h = ltb→lt _ _ (all_below_sound 256 (λ x. ltb (nibbles x) 256) b refl h)

pub sum_nibbles-word :
    (a b c d : ℕ)
    → a < 256
    → b < 256
    → c < 256
    → d < 256
    → sum_nibbles (word a b c d) ≡ word (nibbles a) (nibbles b) (nibbles c) (nibbles d)
unfolding sum_nibbles
sum_nibbles-word a b c d ha hb hc hd =
    let shift : word a b c d / 4
        ≡ word (a / 4 + 64 * (b % 4)) (b / 4 + 64 * (c % 4)) (c / 4 + 64 * (d % 4)) (d / 4) =
      omega arith in
    rw shift (
      omega (
        arith,
        bit_and-word 0x33 a b c d (omega arith) ha hb hc,
        bit_and-word 0x33 (a / 4 + 64 * (b % 4)) (b / 4 + 64 * (c % 4)) (c / 4 + 64 * (d % 4))
            (d / 4) (omega arith) (omega arith) (omega arith) (omega arith),
        nibbles_mask (b % 4) a (omega arith) ha,
        nibbles_mask (c % 4) b (omega arith) hb,
        nibbles_mask (d % 4) c (omega arith) hc,
        nibbles-lt a ha,
        nibbles-lt b hb,
        nibbles-lt c hc,
        nibbles-lt d hd,
      ))

low_mask : (b : ℕ) → b < 256 → bit_and b 0x0f ≡ b % 16
low_mask b h = eq_below (λ x. bit_and x 0x0f) (λ x. x % 16) 256 refl b h

-- Each nibble holds a count of at most 4, so the sums stay inside their bytes.
pub sum_bytes-word :
    (a b c d : ℕ)
    → a ≤ 68
    → b ≤ 68
    → c ≤ 68
    → d ≤ 68
    → a % 16 ≤ 4
    → b % 16 ≤ 4
    → c % 16 ≤ 4
    → d % 16 ≤ 4
    → sum_bytes (word a b c d) ≡ word (halves a) (halves b) (halves c) (halves d)
unfolding sum_bytes
sum_bytes-word a b c d ha hb hc hd la lb lc ld =
    let shift : (word a b c d + word a b c d / 16) % 2 ^ 32
        ≡ word (a + a / 16 + 16 * (b % 16)) (b + b / 16 + 16 * (c % 16))
            (c + c / 16 + 16 * (d % 16)) (d + d / 16) =
      omega arith in
    rw shift (
      omega (
        arith,
        bit_and-word 0x0f (a + a / 16 + 16 * (b % 16)) (b + b / 16 + 16 * (c % 16))
            (c + c / 16 + 16 * (d % 16)) (d + d / 16) (omega arith) (omega arith) (omega arith)
            (omega arith),
        low_mask (a + a / 16 + 16 * (b % 16)) (omega arith),
        low_mask (b + b / 16 + 16 * (c % 16)) (omega arith),
        low_mask (c + c / 16 + 16 * (d % 16)) (omega arith),
        low_mask (d + d / 16) (omega arith),
      ))

-- What the three lines make of one byte is its number of ones.
byte_count : (b : ℕ) → b < 256 → halves (nibbles (pairs b)) ≡ byte_ones b
unfolding byte_ones
byte_count b h = eq_below (λ x. halves (nibbles (pairs x))) byte_ones 256 refl b h

nibbles-pairs-le : (b : ℕ) → b < 256 → nibbles (pairs b) ≤ 68
nibbles-pairs-le b h = leb→le _ _ (all_below_sound 256 (λ x. leb (nibbles (pairs x)) 68) b refl h)

nibbles-pairs_low : (b : ℕ) → b < 256 → nibbles (pairs b) % 16 ≤ 4
nibbles-pairs_low b h =
    leb→le _ _ (all_below_sound 256 (λ x. leb (nibbles (pairs x) % 16) 4) b refl h)

pub swar-word :
    (a b c d : ℕ)
    → a < 256
    → b < 256
    → c < 256
    → d < 256
    → swar (word a b c d) ≡ word (byte_ones a) (byte_ones b) (byte_ones c) (byte_ones d)
unfolding swar
swar-word a b c d ha hb hc hd = rw (
  sum_pairs-word a b c d ha hb hc hd,
  sum_nibbles-word (pairs a) (pairs b) (pairs c) (pairs d) (omega arith) (omega arith) (omega arith)
      (omega arith),
  sum_bytes-word (nibbles (pairs a)) (nibbles (pairs b)) (nibbles (pairs c)) (nibbles (pairs d))
      (nibbles-pairs-le a ha) (nibbles-pairs-le b hb) (nibbles-pairs-le c hc)
      (nibbles-pairs-le d hd) (nibbles-pairs_low a ha) (nibbles-pairs_low b hb)
      (nibbles-pairs_low c hc) (nibbles-pairs_low d hd),
  byte_count a ha,
  byte_count b hb,
  byte_count c hc,
  byte_count d hd,
)
