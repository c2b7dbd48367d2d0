-- ===== src/Bitop/Word.antt =====
-- One word of eight bytes: its operations and its storing are those of its bytes.
use solidbits.Prelude.{ℕ, ◌+◌, ◌-◌, ◌*◌, ◌/◌, ◌%◌, ◌≤◌, ◌<◌, ◌≡◌, refl, [], ◌∷◌, arith}
use solidbits.Bits.Lanes.{
  bit_and-lanes, bit_or-lanes, bit_xor-lanes, bit_and-lt, bit_or-lt, bit_xor-lt,
}
use solidbits.Bitop.{OpOptions, op_and, op_or, op_xor, op_not, combine, store64, not64, not8}

abbrev pub word64 : ℕ → ℕ → ℕ → ℕ → ℕ → ℕ → ℕ → ℕ → ℕ
word64 a b c d e f g h =
    a + 256 * (b + 256 * (c + 256 * (d + 256 * (e + 256 * (f + 256 * (g + 256 * h))))))

pub combine-lanes :
    (op : OpOptions) (x y a b : ℕ)
    → a < 256
    → b < 256
    → combine op (a + 256 * x) (b + 256 * y) ≡ combine op a b + 256 * combine op x y
unfolding combine
combine-lanes op_and x y a b p q = ground (arith, bit_and-lanes 8 x y a b p q)
combine-lanes op_or x y a b p q = ground (arith, bit_or-lanes 8 x y a b p q)
combine-lanes op_xor x y a b p q = ground (arith, bit_xor-lanes 8 x y a b p q)
combine-lanes op_not x y a b p q = refl

pub combine-lt : (op : OpOptions) (a b : ℕ) → a < 256 → b < 256 → combine op a b < 256
unfolding combine
combine-lt op_and a b p q = bit_and-lt 8 a b p q
combine-lt op_or a b p q = bit_or-lt 8 a b p q
combine-lt op_xor a b p q = bit_xor-lt 8 a b p q
combine-lt op_not a b p q = p

abbrev pub AreBytes8 : ℕ → ℕ → ℕ → ℕ → ℕ → ℕ → ℕ → ℕ → Type 0
AreBytes8 a b c d e f g h =
    (a < 256) × (b < 256) × (c < 256) × (d < 256) × (e < 256) × (f < 256) × (g < 256) × (h < 256)

pub combine-word64 :
    (op : OpOptions) (a b c d e f g h a' b' c' d' e' f' g' h' : ℕ)
    → AreBytes8 a b c d e f g h
    → AreBytes8 a' b' c' d' e' f' g' h'
    → combine op (word64 a b c d e f g h) (word64 a' b' c' d' e' f' g' h')
      ≡ word64
          (combine op a a')
          (combine op b b')
          (combine op c c')
          (combine op d d')
          (combine op e e')
          (combine op f f')
          (combine op g g')
          (combine op h h')
combine-word64 op a b c d e f g h a' b' c' d' e' f' g' h' p q = rw (
  combine-lanes op (b + 256 * (c + 256 * (d + 256 * (e + 256 * (f + 256 * (g + 256 * h))))))
      (b' + 256 * (c' + 256 * (d' + 256 * (e' + 256 * (f' + 256 * (g' + 256 * h')))))) a a' p.0 q.0,
  combine-lanes op (c + 256 * (d + 256 * (e + 256 * (f + 256 * (g + 256 * h)))))
      (c' + 256 * (d' + 256 * (e' + 256 * (f' + 256 * (g' + 256 * h'))))) b b' p.1 q.1,
  combine-lanes op (d + 256 * (e + 256 * (f + 256 * (g + 256 * h))))
      (d' + 256 * (e' + 256 * (f' + 256 * (g' + 256 * h')))) c c' p.2 q.2,
  combine-lanes op (e + 256 * (f + 256 * (g + 256 * h))) (e' + 256 * (f' + 256 * (g' + 256 * h'))) d
      d' p.3 q.3,
  combine-lanes op (f + 256 * (g + 256 * h)) (f' + 256 * (g' + 256 * h')) e e' p.4 q.4,
  combine-lanes op (g + 256 * h) (g' + 256 * h') f f' p.5 q.5,
  combine-lanes op h h' g g' p.6 q.6,
)

low : (a x : ℕ) → a < 256 → (a + 256 * x) % 256 ≡ a
low a x h = omega arith

high : (a x : ℕ) → a < 256 → (a + 256 * x) / 256 ≡ x
high a x h = omega arith

byte_mod : (a : ℕ) → a < 256 → a % 256 ≡ a
byte_mod a h = omega arith

pub store64-word64 :
    (a b c d e f g h : ℕ)
    → AreBytes8 a b c d e f g h
    → store64 (word64 a b c d e f g h) ≡ a ∷ b ∷ c ∷ d ∷ e ∷ f ∷ g ∷ h ∷ []
unfolding store64
store64-word64 a b c d e f g h p = rw (
  low a (b + 256 * (c + 256 * (d + 256 * (e + 256 * (f + 256 * (g + 256 * h)))))) p.0,
  high a (b + 256 * (c + 256 * (d + 256 * (e + 256 * (f + 256 * (g + 256 * h)))))) p.0,
  low b (c + 256 * (d + 256 * (e + 256 * (f + 256 * (g + 256 * h))))) p.1,
  high b (c + 256 * (d + 256 * (e + 256 * (f + 256 * (g + 256 * h))))) p.1,
  low c (d + 256 * (e + 256 * (f + 256 * (g + 256 * h)))) p.2,
  high c (d + 256 * (e + 256 * (f + 256 * (g + 256 * h)))) p.2,
  low d (e + 256 * (f + 256 * (g + 256 * h))) p.3,
  high d (e + 256 * (f + 256 * (g + 256 * h))) p.3,
  low e (f + 256 * (g + 256 * h)) p.4,
  high e (f + 256 * (g + 256 * h)) p.4,
  low f (g + 256 * h) p.5,
  high f (g + 256 * h) p.5,
  low g h p.6,
  high g h p.6,
  byte_mod h p.7,
)

not_step : (m a x : ℕ) → a < 256 → x ≤ m → 255 + 256 * m - (a + 256 * x) ≡ 255 - a + 256 * (m - x)
not_step m a x p q = omega arith

pub not64-word64 :
    (a b c d e f g h : ℕ)
    → AreBytes8 a b c d e f g h
    → not64 (word64 a b c d e f g h)
      ≡ word64 (not8 a) (not8 b) (not8 c) (not8 d) (not8 e) (not8 f) (not8 g) (not8 h)
not64-word64 a b c d e f g h p = rw (
  not_step 72057594037927935 a
      (b + 256 * (c + 256 * (d + 256 * (e + 256 * (f + 256 * (g + 256 * h)))))) p.0 (omega arith),
  not_step 281474976710655 b (c + 256 * (d + 256 * (e + 256 * (f + 256 * (g + 256 * h))))) p.1
      (omega arith),
  not_step 1099511627775 c (d + 256 * (e + 256 * (f + 256 * (g + 256 * h)))) p.2 (omega arith),
  not_step 4294967295 d (e + 256 * (f + 256 * (g + 256 * h))) p.3 (omega arith),
  not_step 16777215 e (f + 256 * (g + 256 * h)) p.4 (omega arith),
  not_step 65535 f (g + 256 * h) p.5 (omega arith),
  not_step 255 g h p.6 (omega arith),
)
