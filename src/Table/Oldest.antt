-- ===== src/Table/Oldest.antt =====
-- The slot that `get_avalible_slot` chooses.
use solidbits.Prelude.{
  ℕ, zero, suc, ◌+◌, ◌-◌, ◌≡◌, ◌≢◌, ◌≤◌, ◌<◌, ◌⊎◌, refl, inl, inr, true, Bool-cases, Option, some,
  ltb, ◌==◌, ◌&&◌, arith,
}
use solidbits.Store.{Desc}
use solidbits.Table.{is_free, Scan, free_slot, full, scan_slots}

-- Every entry from slot `i` on, for `left` slots, is in use.
abbrev pub AllUsed : (ℕ → Desc) → ℕ → ℕ → Type 0
AllUsed descs left i = (k : ℕ) → i ≤ k → k < i + left → (descs k).hash ≢ 0

-- No entry of those slots that can be evicted was used before `time`.
abbrev pub NoneOlder : (ℕ → Desc) → ℕ → ℕ → ℕ → Type 0
NoneOlder descs left i time =
    (k : ℕ) → i ≤ k → k < i + left → is_free (descs k).refs ≡ true → time ≤ (descs k).last_access

-- Slot `j` is one of them, has no references, and was used before `tmp` and before the others.
pub record IsOldest (descs : ℕ → Desc) (left i tmp j : ℕ) : Type 0 where
  pub from : i ≤ j
  pub below : j < i + left
  pub unused : is_free (descs j).refs ≡ true
  pub before : (descs j).last_access < tmp
  pub least : NoneOlder descs left i (descs j).last_access

-- Every entry from slot `i` to slot `j` is in use.
abbrev pub UsedBefore : (ℕ → Desc) → ℕ → ℕ → Type 0
UsedBefore descs i j = (k : ℕ) → i ≤ k → k < j → (descs k).hash ≢ 0

abbrev pub Chosen : (ℕ → Desc) → ℕ → ℕ → ℕ → Option ℕ → Scan → Type 0
Chosen descs left i tmp lowest (free_slot j) =
    (i ≤ j) × (j < i + left) × ((descs j).hash ≡ 0) × UsedBefore descs i j
Chosen descs left i tmp lowest (full r) =
    AllUsed descs left i
    × (((r ≡ lowest) × NoneOlder descs left i tmp)
        ⊎ ((j : ℕ) × (r ≡ some j) × IsOldest descs left i tmp j))

split_first :
    (i k left : ℕ) → i ≤ k → k < i + suc left → (k ≡ i) ⊎ ((i + 1 ≤ k) × (k < i + 1 + left))
split_first i k left h l = elim (Bool-cases (k == i)) [
  | inl e ↦ inl (ground arith)
  | inr ne ↦ inr (ground arith, omega arith)
]

AllUsed-more :
    (descs : ℕ → Desc) (left i : ℕ)
    → (descs i).hash ≢ 0
    → AllUsed descs left (i + 1)
    → AllUsed descs (suc left) i
AllUsed-more descs left i h u k a b = elim (split_first i k left a b) [
  | inl e ↦ rw e h
  | inr (c, d) ↦ u k c d
]

NoneOlder-more :
    (descs : ℕ → Desc) (left i time : ℕ)
    → (is_free (descs i).refs ≡ true → time ≤ (descs i).last_access)
    → NoneOlder descs left (i + 1) time
    → NoneOlder descs (suc left) i time
NoneOlder-more descs left i time h u k a b = elim (split_first i k left a b) [
  | inl e ↦ rw e h
  | inr (c, d) ↦ u k c d
]

UsedBefore-more :
    (descs : ℕ → Desc) (i j : ℕ)
    → (descs i).hash ≢ 0
    → UsedBefore descs (i + 1) j
    → UsedBefore descs i j
UsedBefore-more descs i j h u k a b = elim (split_first i k (j - (i + 1)) a (omega arith)) [
  | inl e ↦ rw e h
  | inr (c, d) ↦ u k c b
]

-- One entry more in front, which is not older than what is found behind it.
Chosen-more :
    (descs : ℕ → Desc) (left i tmp : ℕ) (lowest : Option ℕ) (r : Scan)
    → (descs i).hash ≢ 0
    → (is_free (descs i).refs ≡ true → tmp ≤ (descs i).last_access)
    → Chosen descs left (i + 1) tmp lowest r
    → Chosen descs (suc left) i tmp lowest r
Chosen-more descs left i tmp lowest (free_slot j) u h (a, b, c, d) =
    (omega arith, omega arith, c, UsedBefore-more descs i j u d)
Chosen-more descs left i tmp lowest (full r) u h (a, inl (e, n)) =
    (AllUsed-more descs left i u a, inl (e, NoneOlder-more descs left i tmp h n))
Chosen-more descs left i tmp lowest (full r) u h (a, inr (j, e, o)) = (
  AllUsed-more descs left i u a,
  inr (
    j,
    e,
    record {
      from = omega (arith, o.from);
      below = omega (arith, o.below);
      unused = o.unused;
      before = o.before;
      least = NoneOlder-more descs left i _ (λ f. omega (arith, h f, o.before)) o.least;
    },
  ),
)

-- One entry more in front, which is older than `tmp`: the scan behind it goes on with it.
Chosen-older :
    (descs : ℕ → Desc) (left i tmp : ℕ) (lowest : Option ℕ) (r : Scan)
    → (descs i).hash ≢ 0
    → is_free (descs i).refs ≡ true
    → (descs i).last_access < tmp
    → Chosen descs left (i + 1) (descs i).last_access (some i) r
    → Chosen descs (suc left) i tmp lowest r
Chosen-older descs left i tmp lowest (free_slot j) u f o (a, b, c, d) =
    (omega arith, omega arith, c, UsedBefore-more descs i j u d)
Chosen-older descs left i tmp lowest (full r) u f o (a, inl (e, n)) = (
  AllUsed-more descs left i u a,
  inr (
    i,
    e,
    record {
      from = omega arith;
      below = omega arith;
      unused = f;
      before = o;
      least = NoneOlder-more descs left i _ (λ x. omega arith) n;
    },
  ),
)
Chosen-older descs left i tmp lowest (full r) u f o (a, inr (j, e, w)) = (
  AllUsed-more descs left i u a,
  inr (
    j,
    e,
    record {
      from = omega (arith, w.from);
      below = omega (arith, w.below);
      unused = w.unused;
      before = omega (arith, w.before);
      least = NoneOlder-more descs left i _ (λ x. omega (arith, w.before)) w.least;
    },
  ),
)

-- The scan over `left` slots from `i` on gives the first slot of that range with hash 0; or every one of them
-- is in use, and it gives the entry without references that was used the longest ago, among those
-- used before `tmp`, or `lowest` if no such entry is there.
pub scan_slots_lem :
    (descs : ℕ → Desc) (left i tmp : ℕ) (lowest : Option ℕ)
    → Chosen descs left i tmp lowest (scan_slots descs left i tmp lowest)
unfolding scan_slots
scan_slots_lem descs zero i tmp lowest =
    ((λ k a b. absurd (omega arith)), inl (refl, λ k a b. absurd (omega arith)))
scan_slots_lem descs (suc left) i tmp lowest = elim (Bool-cases ((descs i).hash == 0)) [
  | inl vacant ↦ rw vacant (omega arith, omega arith, ground arith, λ k a b. absurd (omega arith))
  | inr used ↦
      let u : (descs i).hash ≢ 0 = ground arith in
      elim (Bool-cases (is_free (descs i).refs && ltb (descs i).last_access tmp)) [
        | inl older ↦
            rw (used, older)
              (Chosen-older descs left i tmp lowest _ u (ground arith) (ground arith)
                (scan_slots_lem descs left (i + 1) (descs i).last_access (some i)))
        | inr not_older ↦
            rw (used, not_older)
              (Chosen-more descs left i tmp lowest _ u (λ f. ground arith)
                (scan_slots_lem descs left (i + 1) tmp lowest))
      ]
]
