-- ===== src/Store/Keeps.antt =====
-- An invariant of the table, with a rule for each way to build an action that keeps it.
use solidbits.Prelude.{
  ℕ, ◌<◌, ◌≡◌, refl, Bool, true, false, Option, none, some, List, [], ◌∷◌, ◌==◌, Bool-cases, inl,
  inr, if◌then◌else◌,
}
use solidbits.Store.{
  Node, Desc, Store, M, pure, undefined, ◌>>=◌, get_desc, put_desc, get_node, put_node, next_fault,
  get_us, update,
}

-- An entry that is alone on its chain.
abbrev pub Alone : Desc → Type 0
Alone d = (d.next ≡ none) × (d.prev ≡ none)

-- No entry is linked to another, and the next slot to try is one of the table's.
pub record Tidy (s : Store) : Type 0 where
  pub alone : (i : ℕ) → Alone (s.descs i)
  pub slot : s.idx < 8192

abbrev pub TidyAfter : {A : Type 0} → Option (A × Store) → Type 0
TidyAfter none = Unit
TidyAfter (some (a, t)) = Tidy t

-- Where the action is defined, it leaves the table tidy.
pub record Keeps {A : Type 0} (m : M A) : Type 0 where
  pub at : (s : Store) → Tidy s → TidyAfter (m s)

module _ {A : Type 0} where
  pub Keeps-pure : (a : A) → Keeps (pure a)
  Keeps-pure a = record { at = λ s h. h }

  pub Keeps-undefined : Keeps (undefined {A = A})
  Keeps-undefined = record { at = λ s h. tt }

  pub Keeps-if : (b : Bool) (m n : M A) → Keeps m → Keeps n → Keeps (if b then m else n)
  Keeps-if true m n km kn = km
  Keeps-if false m n km kn = kn

module _ {A B : Type 0} where
  TidyAfter-bind :
      (r : Option (A × Store)) (f : A → M B) (s : Store)
      → TidyAfter r
      → ((a : A) → Keeps (f a))
      → TidyAfter (((λ x. r) >>= f) s)
  TidyAfter-bind none f s h k = tt
  TidyAfter-bind (some (a, t)) f s h k = (k a).at t h

  pub Keeps-bind : (m : M A) (f : A → M B) → Keeps m → ((a : A) → Keeps (f a)) → Keeps (m >>= f)
  Keeps-bind m f km kf = record { at = λ s h. TidyAfter-bind (m s) f s (km.at s h) kf }

  pub Keeps-option :
      (o : Option A) (m : M B) (f : A → M B)
      → Keeps m
      → ((a : A) → Keeps (f a))
      → Keeps (elim o as (λ o. M B) [ none ↦ m | some a ↦ f a ])
  Keeps-option none m f km kf = km
  Keeps-option (some a) m f km kf = kf a

module _ {B : Type 0} where
  -- What is read from the table is alone on its chain.
  pub Keeps-get_desc :
      (i : ℕ) (f : Desc → M B)
      → ((d : Desc) → d.next ≡ none → d.prev ≡ none → Keeps (f d))
      → Keeps (get_desc i >>= f)
  Keeps-get_desc i f k = record { at = λ s h. (k (s.descs i) (h.alone i).0 (h.alone i).1).at s h }

Alone-update :
    (descs : ℕ → Desc) (i : ℕ) (d : Desc)
    → Alone d
    → ((j : ℕ) → Alone (descs j))
    → (j : ℕ) → Alone (update descs i d j)
Alone-update descs i d a h j = elim (Bool-cases (i == j)) [ inl e ↦ rw e a | inr e ↦ rw e (h j) ]

pub Keeps-put_desc : (i : ℕ) (d : Desc) → d.next ≡ none → d.prev ≡ none → Keeps (put_desc i d)
Keeps-put_desc i d a b = record {
  at = λ s h. record { alone = Alone-update s.descs i d (a, b) h.alone; slot = h.slot };
}

pub Keeps-get_node : (path : List ℕ) → Keeps (get_node path)
Keeps-get_node path = record { at = λ s h. h }

pub Keeps-put_node : (path : List ℕ) (n : Node) → Keeps (put_node path n)
Keeps-put_node path n = record { at = λ s h. record { alone = h.alone; slot = h.slot } }

next_fault-cases :
    (s : Store) (faults : List (Option ℕ)) → s.faults ≡ faults → Tidy s → TidyAfter (next_fault s)
unfolding next_fault
next_fault-cases s [] e h = rw e (record { alone = h.alone; slot = h.slot })
next_fault-cases s (f ∷ fs) e h = rw e (record { alone = h.alone; slot = h.slot })

pub Keeps-next_fault : Keeps next_fault
Keeps-next_fault = record { at = λ s h. next_fault-cases s s.faults refl h }

get_us-cases : (s : Store) (times : List ℕ) → s.times ≡ times → Tidy s → TidyAfter (get_us s)
unfolding get_us
get_us-cases s [] e h = rw e (record { alone = h.alone; slot = h.slot })
get_us-cases s (t ∷ ts) e h = rw e (record { alone = h.alone; slot = h.slot })

pub Keeps-get_us : Keeps get_us
Keeps-get_us = record { at = λ s h. get_us-cases s s.times refl h }

pub ruleset keeps_rules = (
  Keeps-pure, Keeps-undefined, Keeps-if, Keeps-get_desc, Keeps-bind, Keeps-option, Keeps-put_desc,
  Keeps-get_node, Keeps-put_node, Keeps-next_fault, Keeps-get_us,
)
