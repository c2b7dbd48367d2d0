-- ===== src/Bitops/Race.antt =====
-- Two SETBIT of the same key on two threads of the pool. Only a transfer holds the lock of the
-- descriptor, so the read of one command and its write may stand apart.
use solidbits.Prelude.{
  ℕ, ◌-◌, ◌/◌, ◌%◌, ◌^◌, ◌≡◌, ◌≢◌, ◌<◌, refl, sym, ap, ap₂, subst, ◌∙◌, bit_and, some, List, [],
  ◌∷◌, length, get_or_ext, set, get_or, ltb, ◌==◌, true, false, arith,
}
use solidbits.Store.{Store, ◌>>=◌, overwrite, regular, update_disk}
use solidbits.Store.Keys.{SameKeys, SameKeys-trans}
use solidbits.Store.Paths.{update_disk_twice}
use solidbits.Stdio.Transfer.{view, write_to_lem}
use solidbits.Popcount.Spec.{AreBytes, AreBytes-get_or}
use solidbits.Stdio.Holds.{Holds, Holds-view, Holds-written, SameKeys-written}
use solidbits.Stdio.Overwrite.{length-overwrite, get_or-overwrite}
use solidbits.Bitops.{SetbitCmd, store_bit, new_byte, truth}
use solidbits.Bitops.Bit.{bit_at, bit_of, truth-bit_and, bit_at-overwrite, new_byte-lt}
use solidbits.Bitops.Parts.{loaded, setbit_begin, setbit_end, interleaved}
use solidbits.Bitops.SetGet.{BitSet, BitSet-view, read_byte_lem}

overwrite_twice :
    (bs : List ℕ) (o x y : ℕ)
    → overwrite (overwrite bs o (x ∷ [])) o (y ∷ []) ≡ overwrite bs o (y ∷ [])
overwrite_twice bs o x y =
    get_or_ext 0 (overwrite (overwrite bs o (x ∷ [])) o (y ∷ [])) (overwrite bs o (y ∷ []))
      (omega (
        arith,
        length-overwrite (overwrite bs o (x ∷ [])) o y [],
        length-overwrite bs o x [],
        length-overwrite bs o y [],
      ))
      (λ i. ground (
        arith,
        get_or-overwrite (overwrite bs o (x ∷ [])) o (y ∷ []) i,
        get_or-overwrite bs o (x ∷ []) i,
        get_or-overwrite bs o (y ∷ []) i,
      ))

setbit_begin_lem :
    (s : Store) (dt : ℕ) (path bs : List ℕ) (cmd : SetbitCmd)
    → Holds s dt path bs
    → cmd.offset / 8 < length bs
    → (t : Store) × (setbit_begin cmd dt s
        ≡ some (
          loaded
              (get_or bs (cmd.offset / 8) 0)
              (bit_and (get_or bs (cmd.offset / 8) 0) (2 ^ (7 - cmd.offset % 8))),
          t,
        ))
      × (view t ≡ view s)
unfolding setbit_begin
setbit_begin_lem s dt path bs cmd h lt =
    let inside : ltb (cmd.offset / 8) (s.descs dt).length ≡ true = ground (arith, h.synced) in
    let (t, e, v) = read_byte_lem s dt path bs (cmd.offset / 8) h lt in
    (t, rw (inside, e, ◌>>=◌) refl, v)

-- The write of a command, whatever byte it has read.
store_any_byte :
    (s : Store) (dt : ℕ) (path bs : List ℕ) (cmd : SetbitCmd) (o k byteval bitval : ℕ)
    → Holds s dt path bs
    → (t : Store) × (store_bit cmd dt o k byteval bitval s ≡ some (some (truth bitval), t))
      × Holds t dt path (overwrite bs o (new_byte byteval k cmd.value ∷ []))
      × (t.disk
          ≡ update_disk s.disk path (regular (overwrite bs o (new_byte byteval k cmd.value ∷ []))))
      × SameKeys s t dt
unfolding store_bit
store_any_byte s dt path bs cmd o k byteval bitval h =
    let new : ℕ = new_byte byteval k cmd.value in
    let (t, e, v) = write_to_lem s dt path bs (new ∷ []) o h.is_open in
    (
      t,
      rw (e, ◌>>=◌),
      Holds-written s t dt path bs o new [] h (new_byte-lt _ _ _, tt) v,
      ap (λ (x : Store). x.disk) v,
      SameKeys-written s t dt path bs (new ∷ []) o v,
    )

module _ (s : Store) (dt : ℕ) (path bs : List ℕ) (a b : SetbitCmd) where
  -- What both have read.
  abbrev shared : ℕ
  shared = get_or bs (b.offset / 8) 0

  -- The byte of a command with the other's bit as it was.
  abbrev byte_of : SetbitCmd → ℕ
  byte_of cmd = new_byte shared (7 - cmd.offset % 8) cmd.value

  both_writes :
      Holds s dt path bs
      → b.value < 2
      → (t : Store) × (u : Store) × (store_bit a dt
            (b.offset / 8)
            (7 - a.offset % 8)
            shared
            (bit_and shared (2 ^ (7 - a.offset % 8)))
            s
          ≡ some (some (truth (bit_and shared (2 ^ (7 - a.offset % 8)))), t))
        × (store_bit b dt
              (b.offset / 8)
              (7 - b.offset % 8)
              shared
              (bit_and shared (2 ^ (7 - b.offset % 8)))
              t
            ≡ some (some (truth (bit_and shared (2 ^ (7 - b.offset % 8)))), u))
        × BitSet s u dt path bs b.offset b.value
  both_writes h hb =
      let o : ℕ = b.offset / 8 in
      let first : List ℕ = overwrite bs o (byte_of a ∷ []) in
      let now : List ℕ = overwrite bs o (byte_of b ∷ []) in
      let twice : overwrite first o (byte_of b ∷ []) ≡ now =
        overwrite_twice bs o (byte_of a) (byte_of b) in
      let (t, e, h1, d1, k1) = store_any_byte s dt path bs a o (7 - a.offset % 8) shared _ h in
      let (u, e', h2, d2, k2) = store_any_byte t dt path first b o (7 - b.offset % 8) shared _ h1 in
      (
        t,
        u,
        e,
        e',
        record {
          now = now;
          holds = subst (Holds u dt path) twice h2;
          bits = λ i. bit_at-overwrite bs b.offset b.value i h.bytes hb;
          others =
              d2
              ∙ ap₂ (λ disk bytes. update_disk disk path (regular bytes)) d1 twice
              ∙ update_disk_twice s.disk path (regular first) (regular now);
          keys = SameKeys-trans s t u dt k1 k2;
        },
      )

old_bit :
    (bs : List ℕ) (offset o : ℕ)
    → AreBytes bs
    → offset / 8 ≡ o
    → truth (bit_and (get_or bs o 0) (2 ^ (7 - offset % 8))) ≡ bit_at bs offset
unfolding bit_at
old_bit bs offset o h e =
    truth-bit_and (get_or bs o 0) (7 - offset % 8) (AreBytes-get_or bs o h) (omega arith)
    ∙ ap (λ k. bit_of (get_or bs k 0) (7 - offset % 8)) (sym e)

-- The bit of the command that writes first is lost. Two SETBIT, the second with a 0 or a 1, on two bits of
-- one byte of a key that is in step with its file, where both read before either writes and no call fails: each
-- returns the bit that was there, as if it had been alone, but afterwards only the second bit has its
-- new value; the first is what it was.
pub lost_update :
    (s : Store) (dt : ℕ) (path bs : List ℕ) (a b : SetbitCmd)
    → Holds s dt path bs
    → b.value < 2
    → a.offset / 8 ≡ b.offset / 8
    → a.offset ≢ b.offset
    → b.offset / 8 < length bs
    → (t : Store) × (interleaved a b dt s
        ≡ some ((some (bit_at bs a.offset), some (bit_at bs b.offset)), t))
      × (c : BitSet s t dt path bs b.offset b.value) × (bit_at c.now a.offset ≡ bit_at bs a.offset)
unfolding interleaved setbit_end
lost_update s dt path bs a b h hb same ne lt =
    let (s1, e1, v1) = setbit_begin_lem s dt path bs a h (omega arith) in
    let h1 = Holds-view s s1 dt path bs v1 h in
    let (s2, e2, v2) = setbit_begin_lem s1 dt path bs b h1 lt in
    let h2 = Holds-view s1 s2 dt path bs v2 h1 in
    let (t, u, e3, e4, set) = both_writes s2 dt path bs a b h2 hb in
    let c : BitSet s u dt path bs b.offset b.value =
      BitSet-view s s2 u dt path bs b.offset b.value (v2 ∙ v1) set in
    let differs : (b.offset == a.offset) ≡ false = ground arith in
    (
      u,
      rw (e1, ◌>>=◌, e2, same, e3, e4)
          (ap₂ (λ (x y : ℕ). some ((some x, some y), u))
            (old_bit bs a.offset (b.offset / 8) h.bytes same)
            (old_bit bs b.offset (b.offset / 8) h.bytes refl)),
      c,
      c.bits a.offset ∙ rw differs refl,
    )
