-- ===== src/Bitop/Plan.antt =====
-- The reads that are left of a source, and what one round reads of it.
use native.Mathlib.Nat.{div-add-mod', suc-mul, zero-mul, mod-lt}
use solidbits.Prelude.{
  ℕ, zero, suc, ◌+◌, ◌-◌, ◌*◌, ◌/◌, ◌%◌, ◌≤◌, ◌<◌, ◌≡◌, ◌⊎◌, refl, sym, ap, ap₂, ◌∙◌, inl, inr,
  Option, none, some, List, [], take, drop, length, drop-length, take-length, length-drop, take-nil,
  Option-cases, subst, ◌==◌, ==_iff, Bool-cases, if◌then◌else◌, arith,
}
use solidbits.Store.{Store, ◌>>=◌}
use solidbits.Stdio.Transfer.{view, read_from_lem}
use solidbits.Stdio.Holds.{Holds, Holds-view}
use solidbits.Bitop.Round.{Source, fill_by, fill_buffer, buffer}
use solidbits.Bitop.Windows.{window}

-- At offset `o` of a file of `len` bytes: nothing is left, or `t` reads, the last of `r` bytes.
abbrev pub Left : ℕ → ℕ → ℕ → ℕ → ℕ → Type 0
Left cap o len t r =
    ((t ≡ 0) × (len ≤ o)) ⊎ ((k : ℕ) × (t ≡ suc k) × (o + k * cap + r ≡ len) × (0 < r) × (r ≤ cap))

-- The bytes of a source: those of its file, or none for a key that has none.
abbrev pub Reads : Store → Option ℕ → List ℕ → Type 0
Reads s none bs = bs ≡ []
Reads s (some dt) bs = (path : List ℕ) × Holds s dt path bs

pub Reads-view :
    (s t : Store) (desc : Option ℕ) (bs : List ℕ)
    → view t ≡ view s
    → Reads s desc bs
    → Reads t desc bs
Reads-view s t none bs v h = h
Reads-view s t (some dt) bs v (path, h) = (path, Holds-view s t dt path bs v h)

pub record Follows (s : Store) (cap o : ℕ) (src : Source) (bs : List ℕ) : Type 0 where
  pub size : src.len ≡ length bs
  pub reads : Reads s src.desc bs
  pub left : Left cap o (length bs) src.t src.r

pub Left-start_whole : (cap len q : ℕ) → 0 < cap → q * cap ≡ len → Left cap 0 len q cap
Left-start_whole cap len zero pos h = inl (refl, omega (arith, zero-mul cap))
Left-start_whole cap len (suc k) pos h =
    inr (k, refl, omega (arith, suc-mul k cap), pos, omega arith)

pub Left-start_part :
    (cap len : ℕ) → 0 < cap → 0 < len % cap → Left cap 0 len (len / cap + 1) (len % cap)
Left-start_part cap len pos h =
    inr (
      len / cap,
      omega arith,
      omega (arith, div-add-mod' len cap),
      h,
      omega (arith, mod-lt len pos),
    )

-- After a round that took a whole buffer.
Left-next : (cap o len t r : ℕ) → Left cap o len (suc t) r → Left cap (o + cap) len t r
Left-next cap o len t r (inl (e, h)) = absurd (omega (arith, e))
Left-next cap o len zero r (inr (k, e, h, p, q)) =
    let last : k ≡ 0 = omega (arith, e) in
    inl (refl, omega (arith, h, ap (λ n. n * cap) last, zero-mul cap))
Left-next cap o len (suc t) r (inr (k, e, h, p, q)) =
    let more : k ≡ suc t = omega (arith, e) in
    inr (t, refl, omega (arith, h, ap (λ n. n * cap) more, suc-mul t cap), p, q)

Left-over : (cap o len r : ℕ) → Left cap o len 0 r → Left cap (o + cap) len 0 r
Left-over cap o len r (inl (e, h)) = inl (refl, omega arith)
Left-over cap o len r (inr (k, e, _, _, _)) = absurd (omega (arith, e))

pub Left-step : (cap o len t r : ℕ) → Left cap o len t r → Left cap (o + cap) len (t - 1) r
Left-step cap o len zero r h = Left-over cap o len r h
Left-step cap o len (suc t) r h =
    let less : suc t - 1 ≡ t = omega arith in rw less (Left-next cap o len t r h)

-- A source after a round: one read fewer, if there was one.
pub record Advanced (src src' : Source) : Type 0 where
  pub desc : src'.desc ≡ src.desc
  pub len : src'.len ≡ src.len
  pub r : src'.r ≡ src.r
  pub t : src'.t ≡ src.t - 1

pub Follows-step :
    (s t : Store) (cap o : ℕ) (src src' : Source) (bs : List ℕ)
    → view t ≡ view s
    → Advanced src src'
    → Follows s cap o src bs
    → Follows t cap (o + cap) src' bs
Follows-step s t cap o src src' bs v w f = record {
  size = w.len ∙ f.size;
  reads = rw w.desc (Reads-view s t src.desc bs v f.reads);
  left = rw (w.t, w.r) (Left-step cap o (length bs) src.t src.r f.left);
}

window-past : (cap o : ℕ) (bs : List ℕ) → length bs ≤ o → buffer cap [] ≡ window cap o bs
window-past cap o bs h = ap (buffer cap) (sym (ap (take cap) (drop-length o bs h) ∙ take-nil cap))

-- The last read takes what the whole buffer would.
last_take :
    (cap o r : ℕ) (bs : List ℕ)
    → o + r ≡ length bs
    → r ≤ cap
    → take r (drop o bs) ≡ take cap (drop o bs)
last_take cap o r bs h q =
    take-length r (drop o bs) (omega (arith, length-drop o bs))
    ∙ sym (take-length cap (drop o bs) (omega (arith, length-drop o bs)))

round_take :
    (cap o k r : ℕ) (bs : List ℕ)
    → o + k * cap + r ≡ length bs
    → r ≤ cap
    → take (if k == 0 then r else cap) (drop o bs) ≡ take cap (drop o bs)
round_take cap o k r bs h q = elim (Bool-cases (k == 0)) [
  | inl last ↦
      let none_left : k ≡ 0 = (==_iff _ _).0 last in
      rw last (last_take cap o r bs (omega (arith, h, ap (λ n. n * cap) none_left, zero-mul cap)) q)
  | inr more ↦ rw more
]

abbrev pub Filled : Store → ℕ → ℕ → Source → List ℕ → Type 0
Filled s cap o src bs =
    (t : Store) × (src' : Source) × (fill_buffer cap o src s ≡ some ((window cap o bs, src'), t))
    × (view t ≡ view s)
    × Advanced src src'

fill_nothing :
    (s : Store) (cap o : ℕ) (src : Source) (bs : List ℕ)
    → src.t ≡ 0
    → length bs ≤ o
    → fill_buffer cap o src s ≡ some ((buffer cap [], src), s)
    → Filled s cap o src bs
fill_nothing s cap o src bs e h run = (
  s,
  src,
  run ∙ ap (λ p. some ((p, src), s)) (window-past cap o bs h),
  refl,
  record { desc = refl; len = refl; r = refl; t = omega (arith, e) },
)

fill_absent :
    (s : Store) (cap o : ℕ) (src : Source) (bs : List ℕ)
    → Follows s cap o src bs
    → src.desc ≡ none
    → Filled s cap o src bs
fill_absent s cap o src bs f e =
    let nothing : bs ≡ [] = subst (λ d. Reads s d bs) e f.reads in
    let no_bytes : length bs ≡ 0 = ap length nothing in
    let spent : src.t ≡ 0 = ground (arith, f.left, no_bytes) in
    fill_nothing s cap o src bs spent (omega (arith, no_bytes))
      (unfold fill_buffer in ap (λ d. fill_by cap o src d src.t s) e)

fill_read :
    (s : Store) (cap o dt k : ℕ) (src : Source) (path bs : List ℕ)
    → Holds s dt path bs
    → src.desc ≡ some dt
    → src.t ≡ suc k
    → o + k * cap + src.r ≡ length bs
    → src.r ≤ cap
    → Filled s cap o src bs
unfolding fill_buffer
fill_read s cap o dt k src path bs h e n sum q =
    let (t, run, v) = read_from_lem s dt path bs (if k == 0 then src.r else cap) o h.is_open in
    (
      t,
      record src { t = k },
      ap₂ (λ d m. fill_by cap o src d m s) e n
          ∙ rw (run, ◌>>=◌)
              (ap (λ p. some ((buffer cap p, record src { t = k }), t))
                (round_take cap o k src.r bs sum q)),
      v,
      record { desc = refl; len = refl; r = refl; t = omega (arith, n) },
    )

pub fill_buffer_lem :
    (s : Store) (cap o : ℕ) (src : Source) (bs : List ℕ)
    → Follows s cap o src bs
    → Filled s cap o src bs
fill_buffer_lem s cap o src bs f = elim (Option-cases src.desc) [
  | inl e ↦ fill_absent s cap o src bs f e
  | inr (dt, e) ↦
      let (path, h) : Reads s (some dt) bs = subst (λ d. Reads s d bs) e f.reads in
      elim f.left [
        | inl (n, past) ↦
            fill_nothing s cap o src bs n past
              (unfold fill_buffer in ap₂ (λ d m. fill_by cap o src d m s) e n)
        | inr (k, n, sum, p, q) ↦ fill_read s cap o dt k src path bs h e n sum q
      ]
]
