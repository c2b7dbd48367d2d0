-- ===== src/Store/Quiet.antt =====
-- Reading the clock, and calls that succeed.
use solidbits.Prelude.{ℕ, ◌≡◌, refl, none, some, List, [], ◌∷◌}
use solidbits.Store.{Store, next_fault, get_us}

get_us_cases :
    (s : Store) (times : List ℕ)
    → s.times ≡ times
    → (v : ℕ) × (ts : List ℕ) × (get_us s ≡ some (v, record s { times = ts }))
unfolding get_us
get_us_cases s [] h = (0, [], rw h refl)
get_us_cases s (x ∷ xs) h = (x, xs, rw h)

pub get_us_lem :
    (s : Store) → (v : ℕ) × (ts : List ℕ) × (get_us s ≡ some (v, record s { times = ts }))
unfolding get_us
get_us_lem s = get_us_cases s s.times refl

pub next_quiet : (s : Store) → s.faults ≡ [] → next_fault s ≡ some (none, s)
unfolding next_fault
next_quiet s h = rw h refl
