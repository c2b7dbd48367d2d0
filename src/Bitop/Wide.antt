-- ===== src/Bitop/Wide.antt =====
-- Combining four words of eight bytes at a time gives, byte for byte, what combining bytes gives.
use native.Mathlib.Nat.{zero-add, add-zero, suc-add}
use solidbits.Prelude.{
  ℕ, zero, suc, ◌+◌, ◌-◌, ◌*◌, ◌/◌, ◌≤◌, ◌≡◌, ◌≢◌, refl, ap, sym, ◌∙◌, List, ◌∷◌, ◌++◌, arith,
}
use solidbits.Bitop.{
  OpOptions, op_and, op_or, op_xor, op_not, load_quad, store_quad, wide_round, byte_round,
  byte_loop, wide_loop, combine_buffers,
}
use solidbits.Popcount.Spec.{AreBytes}
use solidbits.Bitop.Eight.{
  AreBuffers, fold_quad, fold_quad_words, store64-fold_word, eight_bytes, eight_not,
}

pub byte_loop-add :
    (op : OpOptions) (m n i : ℕ) (p0 : List ℕ) (ps : List (List ℕ))
    → byte_loop op (m + n) i p0 ps ≡ byte_loop op m i p0 ps ++ byte_loop op n (i + m) p0 ps
unfolding byte_loop
byte_loop-add op zero n i p0 ps = rw (zero-add, add-zero)
byte_loop-add op (suc m) n i p0 ps =
    rw (suc-add m n, byte_loop-add op m n (i + 1) p0 ps)
      (ap (λ j. byte_round op i p0 ps ∷ (byte_loop op m (i + 1) p0 ps ++ byte_loop op n j p0 ps))
        (omega arith))

-- Thirty-two bytes as four times eight.
quarters :
    (op : OpOptions) (i : ℕ) (p0 : List ℕ) (ps : List (List ℕ))
    → byte_loop op 32 i p0 ps
      ≡ byte_loop op 8 i p0 ps
        ++ (byte_loop op 8 (i + 8) p0 ps
            ++ (byte_loop op 8 (i + 16) p0 ps ++ byte_loop op 8 (i + 24) p0 ps))
quarters op i p0 ps =
    byte_loop-add op 8 24 i p0 ps
    ∙ ap (λ t. byte_loop op 8 i p0 ps ++ t)
        (byte_loop-add op 8 16 (i + 8) p0 ps
          ∙ ap (λ t. byte_loop op 8 (i + 8) p0 ps ++ t)
              (ap (λ j. byte_loop op 16 j p0 ps) (omega arith)
                ∙ byte_loop-add op 8 8 (i + 16) p0 ps
                ∙ ap (λ j. byte_loop op 8 (i + 16) p0 ps ++ byte_loop op 8 j p0 ps) (omega arith)))

wide_round_fold :
    (op : OpOptions) (i : ℕ) (p0 : List ℕ) (ps : List (List ℕ))
    → op ≢ op_not
    → AreBytes p0
    → AreBuffers ps
    → store_quad (fold_quad op i (load_quad p0 i) ps) ≡ byte_loop op 32 i p0 ps
unfolding store_quad load_quad
wide_round_fold op i p0 ps h b bs =
    rw (fold_quad_words op i (load_quad p0 i) ps, quarters op i p0 ps)
      (rw (
        store64-fold_word op i p0 ps b bs,
        store64-fold_word op (i + 8) p0 ps b bs,
        store64-fold_word op (i + 16) p0 ps b bs,
        store64-fold_word op (i + 24) p0 ps b bs,
        eight_bytes op i p0 ps h,
        eight_bytes op (i + 8) p0 ps h,
        eight_bytes op (i + 16) p0 ps h,
        eight_bytes op (i + 24) p0 ps h,
      ))

wide_round_lem :
    (op : OpOptions) (i : ℕ) (p0 : List ℕ) (ps : List (List ℕ))
    → AreBytes p0
    → AreBuffers ps
    → wide_round op i p0 ps ≡ byte_loop op 32 i p0 ps
unfolding wide_round
wide_round_lem op_and i p0 ps b bs = wide_round_fold op_and i p0 ps (λ e. cc) b bs
wide_round_lem op_or i p0 ps b bs = wide_round_fold op_or i p0 ps (λ e. cc) b bs
wide_round_lem op_xor i p0 ps b bs = wide_round_fold op_xor i p0 ps (λ e. cc) b bs
wide_round_lem op_not i p0 ps b bs = rw (
  quarters op_not i p0 ps,
  eight_not i p0 ps b,
  eight_not (i + 8) p0 ps b,
  eight_not (i + 16) p0 ps b,
  eight_not (i + 24) p0 ps b,
)

wide_loop_lem :
    (op : OpOptions) (times idx size : ℕ) (p0 : List ℕ) (ps : List (List ℕ))
    → 32 * times ≤ size
    → AreBytes p0
    → AreBuffers ps
    → wide_loop op times idx size p0 ps ≡ byte_loop op size idx p0 ps
unfolding wide_loop
wide_loop_lem op zero idx size p0 ps h b bs = refl
wide_loop_lem op (suc times) idx size p0 ps h b bs =
    let split : 32 + (size - 32) ≡ size = omega arith in
    rw
      (
        wide_round_lem op idx p0 ps b bs,
        wide_loop_lem op times (idx + 32) (size - 32) p0 ps (omega arith) b bs,
      )
      (sym (byte_loop-add op 32 (size - 32) idx p0 ps) ∙ ap (λ n. byte_loop op n idx p0 ps) split)

-- For every operation, size and content of the buffers, the loop over four words at a time and the
-- bytes after it leave in the first buffer the bytes that one loop over single bytes leaves there.
pub combine_buffers_lem :
    (op : OpOptions) (size : ℕ) (p0 : List ℕ) (ps : List (List ℕ))
    → AreBytes p0
    → AreBuffers ps
    → combine_buffers op size p0 ps ≡ byte_loop op size 0 p0 ps
unfolding combine_buffers
combine_buffers_lem op size p0 ps b bs =
    wide_loop_lem op (size / 32) 0 size p0 ps (omega arith) b bs
