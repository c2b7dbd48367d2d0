-- ===== src/Bitop/Windows.antt =====
-- A buffer that has been filled is a window on the bytes of its file, with zeros past the end; combining
-- windows is combining the files.
use mathlib.Core.List.{foldl}
use solidbits.Prelude.{
  ℕ, zero, suc, ◌+◌, ◌-◌, ◌≤◌, ◌<◌, ◌≡◌, refl, ap, ap₂, ◌∙◌, List, [], ◌∷◌, ◌++◌, map, take, drop,
  length, replicate, get_or, get_or-append, get_or-take, get_or-drop, get_or-replicate, get_or-past,
  arith,
}
use solidbits.Popcount.Spec.{AreBytes, AreBytes-append, AreBytes-take, AreBytes-drop}
use solidbits.Bitop.{OpOptions, op_and, op_or, op_xor, op_not, combine, byte_round, byte_loop}
use solidbits.Bitop.Eight.{AreBuffers}
use solidbits.Bitop.Round.{buffer}

abbrev pub window : ℕ → ℕ → List ℕ → List ℕ
window cap o bs = buffer cap (take cap (drop o bs))

zeros : (n : ℕ) → AreBytes (replicate n 0)
zeros zero = tt
zeros (suc n) = (omega arith, zeros n)

pub window-AreBytes : (cap o : ℕ) (bs : List ℕ) → AreBytes bs → AreBytes (window cap o bs)
window-AreBytes cap o bs h =
    AreBytes-append _ _ (AreBytes-take cap (drop o bs) (AreBytes-drop o bs h)) (zeros _)

pub windows-AreBuffers :
    (cap o : ℕ) (bss : List (List ℕ)) → AreBuffers bss → AreBuffers (map (window cap o) bss)
windows-AreBuffers cap o [] h = tt
windows-AreBuffers cap o (bs ∷ bss) h =
    (window-AreBytes cap o bs h.0, windows-AreBuffers cap o bss h.1)

get_or-padded : (xs : List ℕ) (n i : ℕ) → get_or (xs ++ replicate n 0) i 0 ≡ get_or xs i 0
get_or-padded xs n i = ground (
  arith,
  get_or-append xs (replicate n 0) i 0,
  get_or-replicate {A = ℕ} n (i - length xs) 0,
  get_or-past xs i 0,
)

pub get_or-window :
    (cap o i : ℕ) (bs : List ℕ) → i < cap → get_or (window cap o bs) i 0 ≡ get_or bs (o + i) 0
get_or-window cap o i bs h =
    get_or-padded (take cap (drop o bs)) _ i
    ∙ ground (arith, get_or-take cap (drop o bs) i 0, get_or-drop o bs i 0)

foldl-windows :
    (op : OpOptions) (cap o i a : ℕ) (bss : List (List ℕ))
    → i < cap
    → foldl (λ b p. combine op b (get_or p i 0)) a (map (window cap o) bss)
      ≡ foldl (λ b p. combine op b (get_or p (o + i) 0)) a bss
foldl-windows op cap o i a [] h = refl
foldl-windows op cap o i a (bs ∷ bss) h =
    foldl-windows op cap o i (combine op a (get_or (window cap o bs) i 0)) bss h
    ∙ ap (λ x. foldl (λ b p. combine op b (get_or p (o + i) 0)) (combine op a x) bss)
        (get_or-window cap o i bs h)

fold_windows :
    (op : OpOptions) (cap o i : ℕ) (b0 : List ℕ) (bss : List (List ℕ))
    → i < cap
    → foldl
        (λ b p. combine op b (get_or p i 0))
        (get_or (window cap o b0) i 0)
        (map (window cap o) bss)
      ≡ foldl (λ b p. combine op b (get_or p (o + i) 0)) (get_or b0 (o + i) 0) bss
fold_windows op cap o i b0 bss h =
    foldl-windows op cap o i (get_or (window cap o b0) i 0) bss h
    ∙ ap (λ x. foldl (λ b p. combine op b (get_or p (o + i) 0)) x bss) (get_or-window cap o i b0 h)

byte_round-windows :
    (op : OpOptions) (cap o i : ℕ) (b0 : List ℕ) (bss : List (List ℕ))
    → i < cap
    → byte_round op i (window cap o b0) (map (window cap o) bss) ≡ byte_round op (o + i) b0 bss
unfolding byte_round
byte_round-windows op_and cap o i b0 bss h = fold_windows op_and cap o i b0 bss h
byte_round-windows op_or cap o i b0 bss h = fold_windows op_or cap o i b0 bss h
byte_round-windows op_xor cap o i b0 bss h = fold_windows op_xor cap o i b0 bss h
byte_round-windows op_not cap o i b0 bss h = ap (λ x. 255 - x) (get_or-window cap o i b0 h)

byte_loop-windows_from :
    (op : OpOptions) (cap o size i : ℕ) (b0 : List ℕ) (bss : List (List ℕ))
    → i + size ≤ cap
    → byte_loop op size i (window cap o b0) (map (window cap o) bss)
      ≡ byte_loop op size (o + i) b0 bss
unfolding byte_loop
byte_loop-windows_from op cap o zero i b0 bss h = refl
byte_loop-windows_from op cap o (suc size) i b0 bss h =
    ap₂ (λ x xs. x ∷ xs) (byte_round-windows op cap o i b0 bss (omega arith))
      (byte_loop-windows_from op cap o size (i + 1) b0 bss (omega arith)
        ∙ ap (λ n. byte_loop op size n b0 bss) (omega arith))

-- The bytes of a round are those bytes of the files.
pub byte_loop-windows :
    (op : OpOptions) (cap o size : ℕ) (b0 : List ℕ) (bss : List (List ℕ))
    → size ≤ cap
    → byte_loop op size 0 (window cap o b0) (map (window cap o) bss) ≡ byte_loop op size o b0 bss
byte_loop-windows op cap o size b0 bss h =
    byte_loop-windows_from op cap o size 0 b0 bss (omega arith)
    ∙ ap (λ n. byte_loop op size n b0 bss) (omega arith)
