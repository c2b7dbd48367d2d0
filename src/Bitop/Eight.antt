-- ===== src/Bitop/Eight.antt =====
-- Eight bytes: combining two words of eight bytes, byte by byte, and folding over several buffers.
use mathlib.Core.List.{foldl}
use native.Mathlib.Nat.{add_assoc}
use solidbits.Prelude.{ℕ, ◌+◌, ◌<◌, ◌≡◌, ◌≢◌, refl, ap, sym, ◌∙◌, List, [], ◌∷◌, get_or, arith}
use solidbits.Bitop.{
  OpOptions, op_and, op_or, op_xor, op_not, combine, load64, store64, not64, not8, Quad, load_quad,
  combine_quad, byte_round, byte_loop,
}
use solidbits.Bitop.Word.{
  word64, combine-lt, AreBytes8, combine-word64, store64-word64, not64-word64,
}
use solidbits.Popcount.Spec.{AreBytes, AreBytes-get_or}

abbrev pub AreBuffers : List (List ℕ) → Type 0
AreBuffers [] = Unit {0}
AreBuffers (p ∷ ps) = AreBytes p × AreBuffers ps

-- One byte, one word and four words, folded over the other buffers.
abbrev pub fold_byte : OpOptions → ℕ → ℕ → List (List ℕ) → ℕ
fold_byte op j a [] = a
fold_byte op j a (p ∷ ps) = fold_byte op j (combine op a (get_or p j 0)) ps

abbrev pub fold_word : OpOptions → ℕ → ℕ → List (List ℕ) → ℕ
fold_word op j w [] = w
fold_word op j w (p ∷ ps) = fold_word op j (combine op w (load64 p j)) ps

abbrev pub fold_quad : OpOptions → ℕ → Quad → List (List ℕ) → Quad
fold_quad op i q ps = foldl (λ q p. combine_quad op q (load_quad p i)) q ps

foldl-fold_byte :
    (op : OpOptions) (j a : ℕ) (ps : List (List ℕ))
    → foldl (λ b p. combine op b (get_or p j 0)) a ps ≡ fold_byte op j a ps
foldl-fold_byte op j a [] = refl
foldl-fold_byte op j a (p ∷ ps) = foldl-fold_byte op j (combine op a (get_or p j 0)) ps

pub fold_quad_words :
    (op : OpOptions) (i : ℕ) (q : Quad) (ps : List (List ℕ))
    → fold_quad op i q ps ≡ record {
      w0 = fold_word op i q.w0 ps;
      w1 = fold_word op (i + 8) q.w1 ps;
      w2 = fold_word op (i + 16) q.w2 ps;
      w3 = fold_word op (i + 24) q.w3 ps;
    }
unfolding combine_quad load_quad
fold_quad_words op i q [] = refl
fold_quad_words op i q (p ∷ ps) = fold_quad_words op i (combine_quad op q (load_quad p i)) ps

-- Eight bytes from index `j` on, folded.
abbrev pub fold_bytes : OpOptions → ℕ → List ℕ → List (List ℕ) → List ℕ
fold_bytes op j p0 ps =
    fold_byte op j (get_or p0 j 0) ps
    ∷ fold_byte op (j + 1) (get_or p0 (j + 1) 0) ps
    ∷ fold_byte op (j + 2) (get_or p0 (j + 2) 0) ps
    ∷ fold_byte op (j + 3) (get_or p0 (j + 3) 0) ps
    ∷ fold_byte op (j + 4) (get_or p0 (j + 4) 0) ps
    ∷ fold_byte op (j + 5) (get_or p0 (j + 5) 0) ps
    ∷ fold_byte op (j + 6) (get_or p0 (j + 6) 0) ps
    ∷ fold_byte op (j + 7) (get_or p0 (j + 7) 0) ps
    ∷ []

bytes_at :
    (p : List ℕ) (j : ℕ)
    → AreBytes p
    → AreBytes8
        (get_or p j 0)
        (get_or p (j + 1) 0)
        (get_or p (j + 2) 0)
        (get_or p (j + 3) 0)
        (get_or p (j + 4) 0)
        (get_or p (j + 5) 0)
        (get_or p (j + 6) 0)
        (get_or p (j + 7) 0)
bytes_at p j h = (
  AreBytes-get_or p j h,
  AreBytes-get_or p (j + 1) h,
  AreBytes-get_or p (j + 2) h,
  AreBytes-get_or p (j + 3) h,
  AreBytes-get_or p (j + 4) h,
  AreBytes-get_or p (j + 5) h,
  AreBytes-get_or p (j + 6) h,
  AreBytes-get_or p (j + 7) h,
)

fold_word-word64 :
    (op : OpOptions) (j : ℕ) (ps : List (List ℕ)) (a b c d e f g h : ℕ)
    → AreBytes8 a b c d e f g h
    → AreBuffers ps
    → store64 (fold_word op j (word64 a b c d e f g h) ps)
      ≡ fold_byte op j a ps
        ∷ fold_byte op (j + 1) b ps
        ∷ fold_byte op (j + 2) c ps
        ∷ fold_byte op (j + 3) d ps
        ∷ fold_byte op (j + 4) e ps
        ∷ fold_byte op (j + 5) f ps
        ∷ fold_byte op (j + 6) g ps
        ∷ fold_byte op (j + 7) h ps
        ∷ []
unfolding load64
fold_word-word64 op j [] a b c d e f g h x y = store64-word64 a b c d e f g h x
fold_word-word64 op j (p ∷ ps) a b c d e f g h x y =
    let k = bytes_at p j y.0 in
    ap (λ w. store64 (fold_word op j w ps))
      (combine-word64 op a b c d e f g h (get_or p j 0) (get_or p (j + 1) 0) (get_or p (j + 2) 0)
        (get_or p (j + 3) 0) (get_or p (j + 4) 0) (get_or p (j + 5) 0) (get_or p (j + 6) 0)
        (get_or p (j + 7) 0) x k)
    ∙ fold_word-word64 op j ps _ _ _ _ _ _ _ _
        (
          combine-lt op _ _ x.0 k.0,
          combine-lt op _ _ x.1 k.1,
          combine-lt op _ _ x.2 k.2,
          combine-lt op _ _ x.3 k.3,
          combine-lt op _ _ x.4 k.4,
          combine-lt op _ _ x.5 k.5,
          combine-lt op _ _ x.6 k.6,
          combine-lt op _ _ x.7 k.7,
        )
        y.1

pub store64-fold_word :
    (op : OpOptions) (j : ℕ) (p0 : List ℕ) (ps : List (List ℕ))
    → AreBytes p0
    → AreBuffers ps
    → store64 (fold_word op j (load64 p0 j) ps) ≡ fold_bytes op j p0 ps
unfolding load64
store64-fold_word op j p0 ps h k = fold_word-word64 op j ps _ _ _ _ _ _ _ _ (bytes_at p0 j h) k

-- The bytes of the specification's loop, with the fold written out.
byte_round_fold :
    (op : OpOptions) (i : ℕ) (p0 : List ℕ) (ps : List (List ℕ))
    → op ≢ op_not
    → byte_round op i p0 ps ≡ fold_byte op i (get_or p0 i 0) ps
unfolding byte_round
byte_round_fold op_and i p0 ps h = foldl-fold_byte op_and i (get_or p0 i 0) ps
byte_round_fold op_or i p0 ps h = foldl-fold_byte op_or i (get_or p0 i 0) ps
byte_round_fold op_xor i p0 ps h = foldl-fold_byte op_xor i (get_or p0 i 0) ps
byte_round_fold op_not i p0 ps h = absurd (h refl)

pub eight_bytes :
    (op : OpOptions) (i : ℕ) (p0 : List ℕ) (ps : List (List ℕ))
    → op ≢ op_not
    → byte_loop op 8 i p0 ps ≡ fold_bytes op i p0 ps
unfolding byte_loop
eight_bytes op i p0 ps h = simp add_assoc (
    rw (
      byte_round_fold op i p0 ps h,
      byte_round_fold op (i + 1) p0 ps h,
      byte_round_fold op (i + 2) p0 ps h,
      byte_round_fold op (i + 3) p0 ps h,
      byte_round_fold op (i + 4) p0 ps h,
      byte_round_fold op (i + 5) p0 ps h,
      byte_round_fold op (i + 6) p0 ps h,
      byte_round_fold op (i + 7) p0 ps h,
    ))

not8-lt : (b : ℕ) → not8 b < 256
not8-lt b = omega arith

flipped-word64 :
    (a b c d e f g h : ℕ)
    → store64 (word64 (not8 a) (not8 b) (not8 c) (not8 d) (not8 e) (not8 f) (not8 g) (not8 h))
      ≡ not8 a ∷ not8 b ∷ not8 c ∷ not8 d ∷ not8 e ∷ not8 f ∷ not8 g ∷ not8 h ∷ []
flipped-word64 a b c d e f g h =
    store64-word64 _ _ _ _ _ _ _ _
      (not8-lt a, not8-lt b, not8-lt c, not8-lt d, not8-lt e, not8-lt f, not8-lt g, not8-lt h)

pub eight_not :
    (i : ℕ) (p0 : List ℕ) (ps : List (List ℕ))
    → AreBytes p0
    → byte_loop op_not 8 i p0 ps ≡ store64 (not64 (load64 p0 i))
unfolding byte_loop byte_round load64
eight_not i p0 ps h = simp add_assoc (
    sym (
      ap store64 (
        not64-word64 (get_or p0 i 0) (get_or p0 (i + 1) 0) (get_or p0 (i + 2) 0)
          (get_or p0 (i + 3) 0) (get_or p0 (i + 4) 0) (get_or p0 (i + 5) 0) (get_or p0 (i + 6) 0)
          (get_or p0 (i + 7) 0) (bytes_at p0 i h))
      ∙ flipped-word64 (get_or p0 i 0) (get_or p0 (i + 1) 0) (get_or p0 (i + 2) 0)
          (get_or p0 (i + 3) 0) (get_or p0 (i + 4) 0) (get_or p0 (i + 5) 0) (get_or p0 (i + 6) 0)
          (get_or p0 (i + 7) 0)))
