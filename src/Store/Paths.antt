-- ===== src/Store/Paths.antt =====
-- Paths are compared as strings of bytes; a write to one file leaves every other as it was.
use solidbits.Prelude.{
  ℕ, ◌≡◌, refl, sym, ap, ◌∙◌, fun_ext, ◌≢◌, inl, inr, true, List, [], ◌∷◌, Bool-cases, ==_iff,
  arith,
}
use solidbits.Store.{Node, bytes_eq, update_disk}

pub bytes_eq_self : (xs : List ℕ) → bytes_eq xs xs ≡ true
bytes_eq_self [] = refl
bytes_eq_self (x ∷ xs) = ground (arith, bytes_eq_self xs)

pub bytes_eq→eq : (xs ys : List ℕ) → bytes_eq xs ys ≡ true → xs ≡ ys
bytes_eq→eq [] [] h = refl
bytes_eq→eq [] (y ∷ ys) h = cc
bytes_eq→eq (x ∷ xs) [] h = cc
bytes_eq→eq (x ∷ xs) (y ∷ ys) h = ground (arith, ==_iff x y, bytes_eq→eq xs ys)

pub update_disk_self : (disk : List ℕ → Node) (p : List ℕ) (n : Node) → update_disk disk p n p ≡ n
update_disk_self disk p n = rw (bytes_eq_self p)

-- Writing what is there changes nothing.
pub update_disk_same :
    (disk : List ℕ → Node) (p : List ℕ) (n : Node) → disk p ≡ n → disk ≡ update_disk disk p n
update_disk_same disk p n h = fun_ext λ q. elim (Bool-cases (bytes_eq p q)) [
  | inl e ↦ rw e (ap disk (sym (bytes_eq→eq p q e)) ∙ h)
  | inr e ↦ rw e
]

pub update_disk_ne :
    (disk : List ℕ → Node) (p q : List ℕ) (n : Node) → p ≢ q → update_disk disk p n q ≡ disk q
update_disk_ne disk p q n ne = elim (Bool-cases (bytes_eq p q)) [
  | inl e ↦ absurd (ne (bytes_eq→eq p q e))
  | inr e ↦ rw e
]

pub update_disk_twice :
    (disk : List ℕ → Node) (p : List ℕ) (m n : Node)
    → update_disk (update_disk disk p m) p n ≡ update_disk disk p n
update_disk_twice disk p m n = fun_ext λ q. ground arith
