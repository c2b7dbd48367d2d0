-- ===== src/Bitops/SetGet.antt =====
-- SETBIT and GETBIT act on the bits of the key's file and on nothing else.
use solidbits.Prelude.{
  ℕ, zero, suc, ◌-◌, ◌/◌, ◌%◌, ◌≤◌, ◌<◌, ◌≡◌, refl, ap, ◌∙◌, some, List, [], ◌∷◌, take, drop,
  length, get_or, inl, inr, Bool-cases, ltb, ltb→lt, ◌==◌, ==_iff, true, false, ◌^◌, bit_and,
  get_or-past, if◌then◌else◌, arith,
}
use solidbits.Store.{Store, regular, update_disk, overwrite, ◌>>=◌}
use solidbits.Store.Keys.{SameKeys, SameKeys-refl, SameKeys-trans}
use solidbits.Store.Paths.{update_disk_same}
use solidbits.Stdio.Transfer.{view, read_from_lem, write_to_lem}
use solidbits.Stdio.Holds.{Holds, Holds-view, Holds-written, SameKeys-view, SameKeys-written}
use solidbits.Popcount.Spec.{AreBytes-get_or}
use solidbits.Bitops.{
  SetbitCmd, GetbitCmd, setbit_command, getbit_command, read_byte, store_bit, new_byte, truth,
}
use solidbits.Bitops.Bit.{bit_at, truth-bit_and, bit_at_past, bit_at-overwrite, new_byte-lt}

take_one : (bs : List ℕ) (i : ℕ) → i < length bs → take 1 (drop i bs) ≡ get_or bs i 0 ∷ []
take_one [] i h = absurd (omega arith)
take_one (b ∷ bs) zero h = refl
take_one (b ∷ bs) (suc i) h = take_one bs i (omega arith)

pub read_byte_lem :
    (s : Store) (dt : ℕ) (path bs : List ℕ) (offset : ℕ)
    → Holds s dt path bs
    → offset < length bs
    → (t : Store) × (read_byte dt offset s ≡ some (some (get_or bs offset 0), t))
      × (view t ≡ view s)
unfolding read_byte
read_byte_lem s dt path bs offset h lt =
    let (t, e, v) = read_from_lem s dt path bs 1 offset h.is_open in
    (t, rw (e, ◌>>=◌, take_one bs offset lt), v)

-- The store after a bit has been written, against the bits of the file before.
pub record BitSet (s t : Store) (dt : ℕ) (path bs : List ℕ) (offset value : ℕ) : Type 0 where
  pub now : List ℕ
  pub holds : Holds t dt path now
  pub bits : (i : ℕ) → bit_at now i ≡ (if offset == i then value else bit_at bs i)
  pub others : t.disk ≡ update_disk s.disk path (regular now)
  pub keys : SameKeys s t dt

pub store_bit_lem :
    (s : Store) (dt : ℕ) (path bs : List ℕ) (cmd : SetbitCmd) (bitval : ℕ)
    → Holds s dt path bs
    → cmd.value < 2
    → (t : Store) × (store_bit cmd dt
          (cmd.offset / 8)
          (7 - cmd.offset % 8)
          (get_or bs (cmd.offset / 8) 0)
          bitval
          s
        ≡ some (some (truth bitval), t))
      × BitSet s t dt path bs cmd.offset cmd.value
unfolding store_bit
store_bit_lem s dt path bs cmd bitval h hv =
    let new : ℕ = new_byte (get_or bs (cmd.offset / 8) 0) (7 - cmd.offset % 8) cmd.value in
    let (t, e, v) = write_to_lem s dt path bs (new ∷ []) (cmd.offset / 8) h.is_open in
    (
      t,
      rw (e, ◌>>=◌),
      record {
        now = overwrite bs (cmd.offset / 8) (new ∷ []);
        holds = Holds-written s t dt path bs (cmd.offset / 8) new [] h (new_byte-lt _ _ _, tt) v;
        bits = λ i. bit_at-overwrite bs cmd.offset cmd.value i h.bytes hv;
        others = ap (λ (x : Store). x.disk) v;
        keys = SameKeys-written s t dt path bs (new ∷ []) (cmd.offset / 8) v;
      },
    )

pub BitSet-view :
    (s t u : Store) (dt : ℕ) (path bs : List ℕ) (offset value : ℕ)
    → view t ≡ view s
    → BitSet t u dt path bs offset value
    → BitSet s u dt path bs offset value
BitSet-view s t u dt path bs offset value e b = record {
  now = b.now;
  holds = b.holds;
  bits = b.bits;
  others = b.others ∙ ap (λ (x : Store). update_disk x.disk path (regular b.now)) e;
  keys = SameKeys-trans s t u dt (SameKeys-view s t dt e) b.keys;
}

-- Writing nothing is as good as writing 0 past the end.
BitSet-zero :
    (s : Store) (dt : ℕ) (path bs : List ℕ) (offset : ℕ)
    → Holds s dt path bs
    → length bs ≤ offset / 8
    → BitSet s s dt path bs offset 0
BitSet-zero s dt path bs offset h past = record {
  now = bs;
  holds = h;
  bits = λ i. ground (arith, bit_at_past bs i);
  others = update_disk_same s.disk path (regular bs) h.is_open.file;
  keys = SameKeys-refl s dt;
}

setbit_inside :
    (s : Store) (dt : ℕ) (path bs : List ℕ) (cmd : SetbitCmd)
    → Holds s dt path bs
    → cmd.value < 2
    → ltb (cmd.offset / 8) (s.descs dt).length ≡ true
    → (t : Store) × (setbit_command cmd dt s ≡ some (some (bit_at bs cmd.offset), t))
      × BitSet s t dt path bs cmd.offset cmd.value
unfolding setbit_command bit_at
setbit_inside s dt path bs cmd h hv inside =
    let lt : cmd.offset / 8 < length bs = omega (arith, ltb→lt _ _ inside, h.synced) in
    let (t, e, v) = read_byte_lem s dt path bs (cmd.offset / 8) h lt in
    let byte = get_or bs (cmd.offset / 8) 0 in
    let (u, e', b) =
      store_bit_lem t dt path bs cmd (bit_and byte (2 ^ (7 - cmd.offset % 8)))
        (Holds-view s t dt path bs v h) hv in
    (
      u,
      rw (
        inside,
        ◌>>=◌,
        e,
        e',
        truth-bit_and byte (7 - cmd.offset % 8) (AreBytes-get_or bs (cmd.offset / 8) h.bytes)
            (omega arith),
      ),
      BitSet-view s t u dt path bs cmd.offset cmd.value v b,
    )

setbit_outside :
    (s : Store) (dt : ℕ) (path bs : List ℕ) (cmd : SetbitCmd)
    → Holds s dt path bs
    → cmd.value < 2
    → ltb (cmd.offset / 8) (s.descs dt).length ≡ false
    → (t : Store) × (setbit_command cmd dt s ≡ some (some (bit_at bs cmd.offset), t))
      × BitSet s t dt path bs cmd.offset cmd.value
unfolding setbit_command
setbit_outside s dt path bs cmd h hv outside =
    let past : length bs ≤ cmd.offset / 8 = ground (arith, h.synced) in
    elim (Bool-cases (cmd.value == 0)) [
      | inl zero_value ↦
          let is_zero : cmd.value ≡ 0 = (==_iff _ _).0 zero_value in
          (
            s,
            rw (outside, zero_value, bit_at_past bs cmd.offset past),
            rw is_zero (BitSet-zero s dt path bs cmd.offset h past),
          )
      | inr one_value ↦
          let (t, e, b) = store_bit_lem s dt path bs cmd 0 h hv in
          (
            t,
            rw (outside, one_value, bit_at_past bs cmd.offset past)
                (rw (get_or-past bs (cmd.offset / 8) 0 past) at e),
            b,
          )
    ]

-- In step with its file and with no failing call, SETBIT returns the bit that was there, writes its
-- value to that bit, leaves every other bit of the key and every other file as it was, keeps the
-- recorded length in step, and leaves the hash and the link of every entry of the table. Writing 0 past the end changes nothing, since those bits read as 0.
pub setbit_command_lem :
    (s : Store) (dt : ℕ) (path bs : List ℕ) (cmd : SetbitCmd)
    → Holds s dt path bs
    → cmd.value < 2
    → (t : Store) × (setbit_command cmd dt s ≡ some (some (bit_at bs cmd.offset), t))
      × BitSet s t dt path bs cmd.offset cmd.value
setbit_command_lem s dt path bs cmd h hv =
    elim (Bool-cases (ltb (cmd.offset / 8) (s.descs dt).length)) [
      | inl inside ↦ setbit_inside s dt path bs cmd h hv inside
      | inr outside ↦ setbit_outside s dt path bs cmd h hv outside
    ]

-- In step with its file and with no failing call, GETBIT returns the bit at its offset, which is 0
-- past the end, and changes no file.
pub getbit_command_lem :
    (s : Store) (dt : ℕ) (path bs : List ℕ) (cmd : GetbitCmd)
    → Holds s dt path bs
    → (t : Store) × (getbit_command cmd dt s ≡ some (some (bit_at bs cmd.offset), t))
      × (view t ≡ view s)
unfolding getbit_command
getbit_command_lem s dt path bs cmd h =
    elim (Bool-cases (ltb (cmd.offset / 8) (s.descs dt).length)) [
      | inl inside ↦
          let lt : cmd.offset / 8 < length bs = omega (arith, ltb→lt _ _ inside, h.synced) in
          let (t, e, v) = read_byte_lem s dt path bs (cmd.offset / 8) h lt in
          (
            t,
            rw
                (
                  inside,
                  ◌>>=◌,
                  e,
                  truth-bit_and (get_or bs (cmd.offset / 8) 0) (7 - cmd.offset % 8)
                      (AreBytes-get_or bs (cmd.offset / 8) h.bytes) (omega arith),
                )
                (unfold bit_at in refl),
            v,
          )
      | inr outside ↦ (s, rw (outside, bit_at_past bs cmd.offset (ground (arith, h.synced))), refl)
    ]
