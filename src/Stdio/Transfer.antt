-- ===== src/Stdio/Transfer.antt =====
-- What a transfer does where no call fails: stated up to the position of the streams, on which
-- nothing depends, since every transfer seeks first.
use solidbits.Prelude.{
  ℕ, ◌+◌, ◌≡◌, ap, fun_ext, ◌∙◌, false, Option, none, some, List, [], take, drop, length, ltb, inl,
  inr, Bool-cases, if◌then◌else◌, arith,
}
use solidbits.Store.{regular, Stream, Desc, Store, update, update_disk, overwrite, next_fault}
use solidbits.Stdio.{write_to, read_from}

abbrev pub rewound : Option Stream → Option Stream
rewound none = none
rewound (some f) = some (record f { pos = 0 })

abbrev pub view_desc : Desc → Desc
view_desc d = record d { fd = rewound d.fd }

abbrev pub view : Store → Store
view s = record s { descs = λ i. view_desc (s.descs i) }

-- Descriptor `dt` is open on the regular file at `path` with the bytes `bs`, and no call fails.
pub record IsOpen (s : Store) (dt : ℕ) (path bs : List ℕ) : Type 0 where
  pub stream : rewound (s.descs dt).fd ≡ some (record { path = path; pos = 0; error = false })
  pub file : s.disk path ≡ regular bs
  pub quiet : s.faults ≡ []

opened :
    (fd : Option Stream) (path : List ℕ)
    → rewound fd ≡ some (record { path = path; pos = 0; error = false })
    → (p : ℕ) × (fd ≡ some (record { path = path; pos = p; error = false }))
opened none path h = cc
opened (some f) path h = (f.pos, ground arith)

abbrev at_pos : List ℕ → ℕ → Option Stream
at_pos path p = some (record { path = path; pos = p; error = false })

-- The store after a read.
abbrev moved : Store → ℕ → List ℕ → ℕ → ℕ → Store
moved s dt path p q = record s {
  descs =
      update (update s.descs dt (record (s.descs dt) { fd = at_pos path p })) dt
        (record (s.descs dt) { fd = at_pos path q });
}

read_from_run :
    (s : Store) (dt : ℕ) (path bs : List ℕ) (p size offset : ℕ)
    → (s.descs dt).fd ≡ at_pos path p
    → s.disk path ≡ regular bs
    → s.faults ≡ []
    → (t : Store) × (read_from dt size offset s
        ≡ some ((take size (drop offset bs), length (take size (drop offset bs))), t))
      × (view t ≡ view s)
unfolding read_from next_fault
read_from_run s dt path bs p size offset e f q = (
  moved s dt path offset (offset + length (take size (drop offset bs))),
  ground arith,
  ap (λ (g : ℕ → Desc). record s { descs = g }) (fun_ext λ i. ground arith),
)

abbrev grown : ℕ → ℕ → ℕ
grown old end = if ltb old end then end else old

-- What a successful write of `buf` at `offset` makes of the store.
abbrev pub written : Store → ℕ → List ℕ → List ℕ → List ℕ → ℕ → Store
written s dt path bs buf offset = record s {
  disk = update_disk s.disk path (regular (overwrite bs offset buf));
  descs =
      update s.descs dt
        (record (s.descs dt) { length = grown (s.descs dt).length (offset + length buf) });
}

-- The descriptors after the seek and the transfer of a write.
abbrev transferred_descs : Store → ℕ → List ℕ → ℕ → ℕ → ℕ → Desc
transferred_descs s dt path p q =
    update (update s.descs dt (record (s.descs dt) { fd = at_pos path p })) dt
      (record (s.descs dt) { fd = at_pos path q })

write_to_run :
    (s : Store) (dt : ℕ) (path bs : List ℕ) (p : ℕ) (buf : List ℕ) (offset : ℕ)
    → (s.descs dt).fd ≡ at_pos path p
    → s.disk path ≡ regular bs
    → s.faults ≡ []
    → (t : Store) × (write_to dt buf offset s ≡ some (length buf, t))
      × (view t ≡ written (view s) dt path bs buf offset)
unfolding write_to next_fault
write_to_run s dt path bs p buf offset e f q =
    elim (Bool-cases (ltb (s.descs dt).length (offset + length buf))) [
      | inl longer ↦ (
        record s {
          disk = update_disk s.disk path (regular (overwrite bs offset buf));
          descs =
              update (transferred_descs s dt path offset (offset + length buf)) dt
                (record (s.descs dt) {
                  fd = at_pos path (offset + length buf);
                  length = offset + length buf;
                });
        },
        ground arith,
        ap
            (λ (g : ℕ → Desc). record s {
              disk = update_disk s.disk path (regular (overwrite bs offset buf));
              descs = g;
            })
            (fun_ext λ i. ground arith),
      )
      | inr shorter ↦ (
        record s {
          disk = update_disk s.disk path (regular (overwrite bs offset buf));
          descs = transferred_descs s dt path offset (offset + length buf);
        },
        ground arith,
        ap
            (λ (g : ℕ → Desc). record s {
              disk = update_disk s.disk path (regular (overwrite bs offset buf));
              descs = g;
            })
            (fun_ext λ i. ground arith),
      )
    ]

-- On an open descriptor and with no failing call, `read_from` gives the bytes of the file from the
-- offset on, up to the size, and leaves everything but the stream's position as it was.
pub read_from_lem :
    (s : Store) (dt : ℕ) (path bs : List ℕ) (size offset : ℕ)
    → IsOpen s dt path bs
    → (t : Store) × (read_from dt size offset s
        ≡ some ((take size (drop offset bs), length (take size (drop offset bs))), t))
      × (view t ≡ view s)
read_from_lem s dt path bs size offset o =
    let (p, e) = opened (s.descs dt).fd path o.stream in
    read_from_run s dt path bs p size offset e o.file o.quiet

-- On an open descriptor and with no failing call, `write_to` writes the whole buffer at the offset,
-- with zeros in a gap past the end, raises the recorded length to the end of the write if it was
-- below, and leaves everything else but the stream's position as it was.
pub write_to_lem :
    (s : Store) (dt : ℕ) (path bs buf : List ℕ) (offset : ℕ)
    → IsOpen s dt path bs
    → (t : Store) × (write_to dt buf offset s ≡ some (length buf, t))
      × (view t ≡ written (view s) dt path bs buf offset)
write_to_lem s dt path bs buf offset o =
    let (p, e) = opened (s.descs dt).fd path o.stream in
    write_to_run s dt path bs p buf offset e o.file o.quiet

-- Being open is a matter of the view alone.
pub IsOpen-view :
    (s t : Store) (dt : ℕ) (path bs : List ℕ)
    → view t ≡ view s
    → IsOpen s dt path bs
    → IsOpen t dt path bs
IsOpen-view s t dt path bs e o = record {
  stream = ap (λ (x : Store). (x.descs dt).fd) e ∙ o.stream;
  file = ap (λ (x : Store). x.disk path) e ∙ o.file;
  quiet = ap (λ (x : Store). x.faults) e ∙ o.quiet;
}
