-- ===== src/Stdio/Overwrite.antt =====
-- The bytes of a file after a positioned write.
use solidbits.Prelude.{
  ℕ, zero, suc, ◌+◌, ◌-◌, max, ◌≡◌, List, [], ◌∷◌, ◌++◌, take, drop, length, replicate, get_or,
  get_or-append, get_or-take, get_or-drop, get_or-replicate, get_or-past, length-append,
  length-take, length-drop, length-replicate, ltb, ◌&&◌, leb, if◌then◌else◌, arith,
}
use solidbits.Store.{overwrite}
use solidbits.Popcount.Spec.{AreBytes, AreBytes-take, AreBytes-drop, AreBytes-append}

-- Inside the written range stands what was written; elsewhere the old byte, or 0 in a gap.
pub get_or-overwrite :
    (bs : List ℕ) (offset : ℕ) (new : List ℕ) (i : ℕ)
    → get_or (overwrite bs offset new) i 0 ≡ (
        if leb offset i && ltb i (offset + length new)
        then get_or new (i - offset) 0
        else get_or bs i 0)
unfolding overwrite
get_or-overwrite bs offset [] i = ground arith
get_or-overwrite bs offset (x ∷ xs) i = ground (
  arith,
  get_or-append (take offset (bs ++ replicate offset 0))
      ((x ∷ xs) ++ drop (offset + length (x ∷ xs)) bs) i 0,
  get_or-append (x ∷ xs) (drop (offset + length (x ∷ xs)) bs)
      (i - length (take offset (bs ++ replicate offset 0))) 0,
  get_or-take offset (bs ++ replicate offset 0) i 0,
  get_or-append bs (replicate offset 0) i 0,
  get_or-replicate {A = ℕ} offset (i - length bs) 0,
  get_or-past bs i 0,
  get_or-drop (offset + length (x ∷ xs)) bs (i - offset - length (x ∷ xs)) 0,
  length-take offset (bs ++ replicate offset 0),
  length-append bs (replicate offset 0),
  length-replicate {A = ℕ} offset 0,
)

pub length-overwrite :
    (bs : List ℕ) (offset : ℕ) (x : ℕ) (xs : List ℕ)
    → length (overwrite bs offset (x ∷ xs)) ≡ max (length bs) (offset + length (x ∷ xs))
unfolding overwrite
length-overwrite bs offset x xs = omega (
  arith,
  length-append (take offset (bs ++ replicate offset 0))
      ((x ∷ xs) ++ drop (offset + length (x ∷ xs)) bs),
  length-append (x ∷ xs) (drop (offset + length (x ∷ xs)) bs),
  length-take offset (bs ++ replicate offset 0),
  length-append bs (replicate offset 0),
  length-replicate {A = ℕ} offset 0,
  length-drop (offset + length (x ∷ xs)) bs,
)

AreBytes-replicate : (n : ℕ) → AreBytes (replicate n 0)
AreBytes-replicate zero = tt
AreBytes-replicate (suc n) = (omega arith, AreBytes-replicate n)

pub AreBytes-overwrite :
    (bs : List ℕ) (offset : ℕ) (new : List ℕ)
    → AreBytes bs
    → AreBytes new
    → AreBytes (overwrite bs offset new)
unfolding overwrite
AreBytes-overwrite bs offset [] h k = h
AreBytes-overwrite bs offset (x ∷ xs) h k =
    AreBytes-append (take offset (bs ++ replicate offset 0)) _
      (AreBytes-take offset _ (AreBytes-append bs _ h (AreBytes-replicate offset)))
      (AreBytes-append (x ∷ xs) _ k (AreBytes-drop (offset + length (x ∷ xs)) bs h))
