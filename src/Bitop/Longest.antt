-- ===== src/Bitop/Longest.antt =====
-- The longest source of BITOP, whose reads decide how many rounds there are.
use solidbits.Prelude.{
  ℕ, zero, suc, ◌+◌, ◌-◌, ◌≡◌, ◌⊎◌, refl, sym, subst, ◌∙◌, inl, inr, List, [], ◌∷◌, length, ltb,
  true, false, Bool-cases, if◌then◌else◌, arith,
}
use solidbits.Store.{Store}
use solidbits.Bitop.Round.{Source, longest, reads_left, last_read}
use solidbits.Bitop.Plan.{Left}
use solidbits.Bitop.Sources.{AllFollow, AllAdvanced}

-- The greatest length, and `len` if none is greater.
abbrev pub greatest : List (List ℕ) → ℕ → ℕ
greatest [] len = len
greatest (bs ∷ bss) len = greatest bss (if ltb len (length bs) then length bs else len)

-- Source `j` stands at offset `o` of a file of `len` bytes.
abbrev pub Stands : ℕ → ℕ → ℕ → List Source → ℕ → Type 0
Stands cap o len ss j = Left cap o len (reads_left ss j) (last_read ss j)

pub Stands-Advanced :
    (ss ss' : List Source) (j : ℕ)
    → AllAdvanced ss ss'
    → (reads_left ss' j ≡ reads_left ss j - 1) × (last_read ss' j ≡ last_read ss j)
Stands-Advanced [] [] j w = (omega arith, refl)
Stands-Advanced [] (b ∷ ss') j w = absurd w
Stands-Advanced (a ∷ ss) [] j w = absurd w
Stands-Advanced (a ∷ ss) (b ∷ ss') zero w = (w.0.t, w.0.r)
Stands-Advanced (a ∷ ss) (b ∷ ss') (suc j) w = Stands-Advanced ss ss' j w.1

-- The scan gives the greatest length `g`, and with it the index that it started with, or a source of
-- that length.
abbrev pub Found : ℕ → ℕ → List Source → ℕ → ℕ → ℕ → ℕ × ℕ → ℕ → Type 0
Found cap o ss i m l p g =
    (p.1 ≡ g) × (((p.0 ≡ m) × (g ≡ l)) ⊎ ((j : ℕ) × (p.0 ≡ i + j) × Stands cap o g ss j))

longest_taken :
    (src : Source) (ss : List Source) (i m l : ℕ)
    → ltb l src.len ≡ true
    → longest (src ∷ ss) i m l ≡ longest ss (i + 1) i src.len
unfolding longest
longest_taken src ss i m l h = rw h

longest_kept :
    (src : Source) (ss : List Source) (i m l : ℕ)
    → ltb l src.len ≡ false
    → longest (src ∷ ss) i m l ≡ longest ss (i + 1) m l
unfolding longest
longest_kept src ss i m l h = rw h

longest_none : (i m l : ℕ) → longest [] i m l ≡ (m, l)
unfolding longest
longest_none i m l = refl

Found-taken :
    (cap o : ℕ) (src : Source) (ss : List Source) (i m l g : ℕ)
    → Left cap o src.len src.t src.r
    → Found cap o ss (i + 1) i src.len (longest ss (i + 1) i src.len) g
    → Found cap o (src ∷ ss) i m l (longest ss (i + 1) i src.len) g
Found-taken cap o src ss i m l g left (e, inl (here, its)) =
    (e, inr (0, here ∙ omega arith, subst (λ n. Left cap o n src.t src.r) (sym its) left))
Found-taken cap o src ss i m l g left (e, inr (j, there, st)) =
    (e, inr (suc j, there ∙ omega arith, st))

Found-kept :
    (cap o : ℕ) (src : Source) (ss : List Source) (i m l g : ℕ)
    → Found cap o ss (i + 1) m l (longest ss (i + 1) m l) g
    → Found cap o (src ∷ ss) i m l (longest ss (i + 1) m l) g
Found-kept cap o src ss i m l g (e, inl (here, its)) = (e, inl (here, its))
Found-kept cap o src ss i m l g (e, inr (j, there, st)) = (e, inr (suc j, there ∙ omega arith, st))

pub longest_lem :
    (s : Store) (cap o : ℕ) (ss : List Source) (bss : List (List ℕ)) (i m l : ℕ)
    → AllFollow s cap o ss bss
    → Found cap o ss i m l (longest ss i m l) (greatest bss l)
longest_lem s cap o [] [] i m l f = rw (longest_none i m l) (refl, inl (refl, refl))
longest_lem s cap o [] (bs ∷ bss) i m l f = absurd f
longest_lem s cap o (src ∷ ss) [] i m l f = absurd f
longest_lem s cap o (src ∷ ss) (bs ∷ bss) i m l f =
    let left : Left cap o src.len src.t src.r =
      subst (λ n. Left cap o n src.t src.r) (sym f.0.size) f.0.left in
    subst
      (λ n.
        Found cap o (src ∷ ss) i m l (longest (src ∷ ss) i m l)
          (greatest bss (if ltb l n then n else l)))
      f.0.size
      (elim (Bool-cases (ltb l src.len)) [
        | inl longer ↦
            rw (longest_taken src ss i m l longer, longer)
              (Found-taken cap o src ss i m l _ left
                (longest_lem s cap o ss bss (i + 1) i src.len f.1))
        | inr shorter ↦
            rw (longest_kept src ss i m l shorter, shorter)
              (Found-kept cap o src ss i m l _ (longest_lem s cap o ss bss (i + 1) m l f.1))
      ])
