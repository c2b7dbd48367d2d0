-- ===== src/Bitop/Bytes.antt =====
-- The bytes that BITOP computes are bytes, as many as were asked for.
use mathlib.Core.List.{foldl}
use solidbits.Prelude.{ℕ, zero, suc, ◌+◌, ◌<◌, ◌≡◌, refl, ap, List, [], ◌∷◌, length, get_or, arith}
use solidbits.Popcount.Spec.{AreBytes, AreBytes-get_or}
use solidbits.Bitop.{OpOptions, op_and, op_or, op_xor, op_not, combine, byte_round, byte_loop}
use solidbits.Bitop.Word.{combine-lt}
use solidbits.Bitop.Eight.{AreBuffers}

pub length-byte_loop :
    (op : OpOptions) (n i : ℕ) (p0 : List ℕ) (ps : List (List ℕ))
    → length (byte_loop op n i p0 ps) ≡ n
unfolding byte_loop
length-byte_loop op zero i p0 ps = refl
length-byte_loop op (suc n) i p0 ps = ap suc (length-byte_loop op n (i + 1) p0 ps)

fold-lt :
    (op : OpOptions) (i a : ℕ) (ps : List (List ℕ))
    → a < 256
    → AreBuffers ps
    → foldl (λ b p. combine op b (get_or p i 0)) a ps < 256
fold-lt op i a [] h bs = h
fold-lt op i a (p ∷ ps) h bs =
    fold-lt op i (combine op a (get_or p i 0)) ps
      (combine-lt op a (get_or p i 0) h (AreBytes-get_or p i bs.0)) bs.1

byte_round-lt :
    (op : OpOptions) (i : ℕ) (p0 : List ℕ) (ps : List (List ℕ))
    → AreBytes p0
    → AreBuffers ps
    → byte_round op i p0 ps < 256
unfolding byte_round
byte_round-lt op_and i p0 ps b bs = fold-lt op_and i (get_or p0 i 0) ps (AreBytes-get_or p0 i b) bs
byte_round-lt op_or i p0 ps b bs = fold-lt op_or i (get_or p0 i 0) ps (AreBytes-get_or p0 i b) bs
byte_round-lt op_xor i p0 ps b bs = fold-lt op_xor i (get_or p0 i 0) ps (AreBytes-get_or p0 i b) bs
byte_round-lt op_not i p0 ps b bs = omega arith

pub byte_loop-AreBytes :
    (op : OpOptions) (n i : ℕ) (p0 : List ℕ) (ps : List (List ℕ))
    → AreBytes p0
    → AreBuffers ps
    → AreBytes (byte_loop op n i p0 ps)
unfolding byte_loop
byte_loop-AreBytes op zero i p0 ps b bs = tt
byte_loop-AreBytes op (suc n) i p0 ps b bs =
    (byte_round-lt op i p0 ps b bs, byte_loop-AreBytes op n (i + 1) p0 ps b bs)
