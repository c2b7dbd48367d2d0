-- ===== src/Stdio/Holds.antt =====
-- A descriptor that is in step with its file, and what reads and writes do to it.
use solidbits.Prelude.{ℕ, ◌≡◌, ap, ◌∙◌, ◌≢◌, List, ◌∷◌, length, arith}
use solidbits.Store.{Store, overwrite}
use solidbits.Store.Keys.{SameKeys}
use solidbits.Store.Paths.{update_disk_self, update_disk_ne}
use solidbits.Stdio.Overwrite.{length-overwrite, AreBytes-overwrite}
use solidbits.Stdio.Transfer.{view, IsOpen, IsOpen-view, written}
use solidbits.Popcount.Spec.{AreBytes}

-- The recorded length is the length of the file.
pub record Holds (s : Store) (dt : ℕ) (path bs : List ℕ) : Type 0 where
  pub is_open : IsOpen s dt path bs
  pub synced : (s.descs dt).length ≡ length bs
  pub bytes : AreBytes bs

pub Holds-view :
    (s t : Store) (dt : ℕ) (path bs : List ℕ)
    → view t ≡ view s
    → Holds s dt path bs
    → Holds t dt path bs
Holds-view s t dt path bs e h = record {
  is_open = IsOpen-view s t dt path bs e h.is_open;
  synced = ap (λ (x : Store). (x.descs dt).length) e ∙ h.synced;
  bytes = h.bytes;
}

pub Holds-written :
    (s t : Store) (dt : ℕ) (path bs : List ℕ) (offset x : ℕ) (xs : List ℕ)
    → Holds s dt path bs
    → AreBytes (x ∷ xs)
    → view t ≡ written (view s) dt path bs (x ∷ xs) offset
    → Holds t dt path (overwrite bs offset (x ∷ xs))
Holds-written s t dt path bs offset x xs h b e = record {
  is_open = record {
    stream = ap (λ (x : Store). (x.descs dt).fd) e ∙ ground (arith, h.is_open.stream);
    file = ap (λ (x : Store). x.disk path) e ∙ update_disk_self s.disk path _;
    quiet = ap (λ (x : Store). x.faults) e ∙ h.is_open.quiet;
  };
  synced =
      ap (λ (x : Store). (x.descs dt).length) e
      ∙ ground (arith, h.synced, length-overwrite bs offset x xs);
  bytes = AreBytes-overwrite bs offset (x ∷ xs) h.bytes b;
}

pub written-disk :
    (s t : Store) (dt : ℕ) (path bs buf : List ℕ) (offset : ℕ)
    → view t ≡ written (view s) dt path bs buf offset
    → (q : List ℕ) → path ≢ q
    → t.disk q ≡ s.disk q
written-disk s t dt path bs buf offset e q ne =
    ap (λ (x : Store). x.disk q) e ∙ update_disk_ne s.disk path q _ ne

pub SameKeys-view : (s t : Store) (dt : ℕ) → view t ≡ view s → SameKeys s t dt
SameKeys-view s t dt e = record {
  heads = ap (λ (x : Store). x.xxtable) e;
  hashes = λ i. ap (λ (x : Store). (x.descs i).hash) e;
  links = λ i. ap (λ (x : Store). (x.descs i).next) e;
  others = λ i ne. ap (λ (x : Store). x.descs i) e;
  dir = ap (λ (x : Store). x.dir) e;
  idx = ap (λ (x : Store). x.idx) e;
}

pub SameKeys-written :
    (s t : Store) (dt : ℕ) (path bs buf : List ℕ) (offset : ℕ)
    → view t ≡ written (view s) dt path bs buf offset
    → SameKeys s t dt
SameKeys-written s t dt path bs buf offset e = record {
  heads = ap (λ (x : Store). x.xxtable) e;
  hashes = λ i. ap (λ (x : Store). (x.descs i).hash) e ∙ ground arith;
  links = λ i. ap (λ (x : Store). (x.descs i).next) e ∙ ground arith;
  others = λ i ne. ap (λ (x : Store). x.descs i) e ∙ ground arith;
  dir = ap (λ (x : Store). x.dir) e;
  idx = ap (λ (x : Store). x.idx) e;
}
