-- ===== src/Bitop.antt =====
-- src/bitops.c, `bitopCommand`: the bytes of several keys are combined, a buffer at a time, and within
-- a buffer four words of eight bytes at a time. Words are little-endian; a buffer holds `cap` bytes.
pub mod Word
pub mod Eight
pub mod Wide
pub mod Round
pub mod Windows
pub mod Plan
pub mod Sources
pub mod Longest
pub mod Bytes
pub mod Counted
pub mod Buffers
pub mod Rounds
pub mod Dest
pub mod Written
pub mod Stored
pub mod Keeps
use mathlib.Core.List.{foldl}
use solidbits.Prelude.{
  ℕ, zero, suc, ◌+◌, ◌-◌, ◌*◌, ◌/◌, ◌%◌, ◌^◌, bit_and, bit_or, bit_xor, Bool, true, false, Option,
  none, some, List, [], ◌∷◌, ◌++◌, map, length, replicate, take, get_or, ltb, ◌==◌, if◌then◌else◌,
}

-- `enum OP_OPTIONS` and `enum OP_HOOKS`
pub data OpOptions : Type 0 where
  op_and : OpOptions
  op_or : OpOptions
  op_xor : OpOptions
  op_not : OpOptions

pub data OpHooks : Type 0 where
  no_hook : OpHooks
  count_op : OpHooks
  get_op : OpHooks

-- `a &= b`, `a |= b` and `a ^= b`, on bytes and on words; NOT never combines two.
unfoldable pub combine : OpOptions → ℕ → ℕ → ℕ
combine op_and a b = bit_and a b
combine op_or a b = bit_or a b
combine op_xor a b = bit_xor a b
combine op_not a b = a

-- `((unsigned long *)p)[…]` at byte offset `i`, and its bytes when it is stored.
unfoldable pub load64 : List ℕ → ℕ → ℕ
load64 p i =
    get_or p i 0
    + 256
      * (get_or p (i + 1) 0
          + 256
            * (get_or p (i + 2) 0
                + 256
                  * (get_or p (i + 3) 0
                      + 256
                        * (get_or p (i + 4) 0
                            + 256
                              * (get_or p (i + 5) 0
                                  + 256 * (get_or p (i + 6) 0 + 256 * get_or p (i + 7) 0))))))

unfoldable pub store64 : ℕ → List ℕ
store64 w =
    w % 256
    ∷ w / 256 % 256
    ∷ w / 256 / 256 % 256
    ∷ w / 256 / 256 / 256 % 256
    ∷ w / 256 / 256 / 256 / 256 % 256
    ∷ w / 256 / 256 / 256 / 256 / 256 % 256
    ∷ w / 256 / 256 / 256 / 256 / 256 / 256 % 256
    ∷ w / 256 / 256 / 256 / 256 / 256 / 256 / 256 % 256
    ∷ []

-- `lp[0][0]` to `lp[0][3]`
pub record Quad : Type 0 where
  pub w0 : ℕ
  pub w1 : ℕ
  pub w2 : ℕ
  pub w3 : ℕ

unfoldable pub load_quad : List ℕ → ℕ → Quad
load_quad p i = record {
  w0 = load64 p i;
  w1 = load64 p (i + 8);
  w2 = load64 p (i + 16);
  w3 = load64 p (i + 24);
}

unfoldable pub store_quad : Quad → List ℕ
store_quad q = store64 q.w0 ++ (store64 q.w1 ++ (store64 q.w2 ++ store64 q.w3))

unfoldable pub combine_quad : OpOptions → Quad → Quad → Quad
combine_quad op q r = record {
  w0 = combine op q.w0 r.w0;
  w1 = combine op q.w1 r.w1;
  w2 = combine op q.w2 r.w2;
  w3 = combine op q.w3 r.w3;
}

-- `~x` on an `unsigned long` and on an `unsigned char`.
abbrev pub not64 : ℕ → ℕ
not64 w = 2 ^ 64 - 1 - w

abbrev pub not8 : ℕ → ℕ
not8 b = 255 - b

unfoldable pub not_quad : Quad → Quad
not_quad q = record { w0 = not64 q.w0; w1 = not64 q.w1; w2 = not64 q.w2; w3 = not64 q.w3 }

-- One round of a `while (times--)` loop, at byte offset `i` of the buffers.
unfoldable pub wide_round : OpOptions → ℕ → List ℕ → List (List ℕ) → List ℕ
unfolding load_quad store_quad combine_quad not_quad
wide_round op_not i p0 ps = store_quad (not_quad (load_quad p0 i))
wide_round op_and i p0 ps =
    store_quad (foldl (λ q p. combine_quad op_and q (load_quad p i)) (load_quad p0 i) ps)
wide_round op_or i p0 ps =
    store_quad (foldl (λ q p. combine_quad op_or q (load_quad p i)) (load_quad p0 i) ps)
wide_round op_xor i p0 ps =
    store_quad (foldl (λ q p. combine_quad op_xor q (load_quad p i)) (load_quad p0 i) ps)

-- One round of the `while (size--)` loop.
unfoldable pub byte_round : OpOptions → ℕ → List ℕ → List (List ℕ) → ℕ
unfolding combine
byte_round op_not i p0 ps = not8 (get_or p0 i 0)
byte_round op_and i p0 ps = foldl (λ b p. combine op_and b (get_or p i 0)) (get_or p0 i 0) ps
byte_round op_or i p0 ps = foldl (λ b p. combine op_or b (get_or p i 0)) (get_or p0 i 0) ps
byte_round op_xor i p0 ps = foldl (λ b p. combine op_xor b (get_or p i 0)) (get_or p0 i 0) ps

-- `size` bytes from `idx` on.
unfoldable pub byte_loop : OpOptions → ℕ → ℕ → List ℕ → List (List ℕ) → List ℕ
byte_loop op zero idx p0 ps = []
byte_loop op (suc size) idx p0 ps = byte_round op idx p0 ps ∷ byte_loop op size (idx + 1) p0 ps

-- `times` rounds of 32 bytes, and then the bytes that are left.
unfoldable pub wide_loop : OpOptions → ℕ → ℕ → ℕ → List ℕ → List (List ℕ) → List ℕ
unfolding wide_round byte_loop
wide_loop op zero idx size p0 ps = byte_loop op size idx p0 ps
wide_loop op (suc times) idx size p0 ps =
    wide_round op idx p0 ps ++ wide_loop op times (idx + 32) (size - 32) p0 ps

-- The first `size` bytes of `p[0]` once the loops are through.
unfoldable pub combine_buffers : OpOptions → ℕ → List ℕ → List (List ℕ) → List ℕ
unfolding wide_loop
combine_buffers op size p0 ps = wide_loop op (size / 32) 0 size p0 ps
