-- ===== src/Store/Keys.antt =====
-- What a command leaves of the table: the part that the walk along a chain looks at, and every entry but
-- the one that it uses.
use solidbits.Prelude.{ℕ, ◌≡◌, ◌≢◌, refl, ◌∙◌}
use solidbits.Store.{Store}
use solidbits.Stdio.Transfer.{view_desc}

-- The heads of the chains, the hashes and the links are what they were, and so are the directory, the
-- slot where the next scan starts, and every entry but `dt`, up to the position of its stream.
pub record SameKeys (s t : Store) (dt : ℕ) : Type 0 where
  pub heads : t.xxtable ≡ s.xxtable
  pub hashes : (i : ℕ) → (t.descs i).hash ≡ (s.descs i).hash
  pub links : (i : ℕ) → (t.descs i).next ≡ (s.descs i).next
  pub others : (i : ℕ) → i ≢ dt → view_desc (t.descs i) ≡ view_desc (s.descs i)
  pub dir : t.dir ≡ s.dir
  pub idx : t.idx ≡ s.idx

pub SameKeys-refl : (s : Store) (dt : ℕ) → SameKeys s s dt
SameKeys-refl s dt = record {
  heads = refl;
  hashes = λ i. refl;
  links = λ i. refl;
  others = λ i ne. refl;
  dir = refl;
  idx = refl;
}

pub SameKeys-trans : (s t u : Store) (dt : ℕ) → SameKeys s t dt → SameKeys t u dt → SameKeys s u dt
SameKeys-trans s t u dt a b = record {
  heads = b.heads ∙ a.heads;
  hashes = λ i. b.hashes i ∙ a.hashes i;
  links = λ i. b.links i ∙ a.links i;
  others = λ i ne. b.others i ne ∙ a.others i ne;
  dir = b.dir ∙ a.dir;
  idx = b.idx ∙ a.idx;
}
