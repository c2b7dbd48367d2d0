-- ===== src/Table/Keeps.antt =====
-- Taking a slot of the table keeps it tidy.
use solidbits.Prelude.{ℕ, ◌-◌, ◌<◌, Option, none, some, arith}
use solidbits.Store.{Desc, undefined, put_desc}
use solidbits.Store.Keeps.{
  Keeps, keeps_rules, Keeps-bind, Keeps-get_desc, Keeps-put_desc, Keeps-option, Keeps-undefined,
  Keeps-get_us,
}
use solidbits.Table.{
  desc_table_size, put_head, get_head, put_idx, Scan, free_slot, full, scan_slots, close_file,
  unlink, evict, take_slot, get_avalible_slot,
}
use solidbits.Table.Oldest.{Chosen, scan_slots_lem}

pub Keeps-put_head : (id : ℕ) (h : Option ℕ) → Keeps (put_head id h)
Keeps-put_head id h = record { at = λ s k. record { alone = k.alone; slot = k.slot } }

pub Keeps-get_head : (id : ℕ) → Keeps (get_head id)
Keeps-get_head id = record { at = λ s k. k }

pub Keeps-put_idx : (i : ℕ) → i < 8192 → Keeps (put_idx i)
Keeps-put_idx i lt = record { at = λ s k. record { alone = k.alone; slot = lt } }

pub close_file-Keeps : (i : ℕ) → Keeps (close_file i)
unfolding close_file
close_file-Keeps i =
    Keeps-get_desc i
      (λ d. elim d.fd [ none ↦ undefined | some f ↦ put_desc i (record d { fd = none }) ])
      (λ d a b.
        Keeps-option d.fd undefined (λ f. put_desc i (record d { fd = none })) Keeps-undefined
          (λ f. Keeps-put_desc i (record d { fd = none }) a b))

unlink-Keeps : (i : ℕ) → Keeps (unlink i)
unfolding unlink
unlink-Keeps i = record {
  at = λ s h. rw ((h.alone i).1, (h.alone i).0) (record { alone = h.alone; slot = h.slot });
}

evict-Keeps : (i : ℕ) → Keeps (evict i)
unfolding evict
evict-Keeps i = search (keeps_rules, unlink-Keeps, close_file-Keeps) depth 14

-- A slot that the scan may give.
abbrev InTable : Scan → Type 0
InTable (free_slot i) = i < 8192
InTable (full r) = Unit

take_slot-Keeps : (r : Scan) → InTable r → Keeps (take_slot r)
unfolding take_slot
take_slot-Keeps (free_slot i) lt = search (keeps_rules, Keeps-put_idx) depth 8
take_slot-Keeps (full none) lt = search (keeps_rules, Keeps-put_idx, arith) depth 8
take_slot-Keeps (full (some i)) lt = search (keeps_rules, Keeps-put_idx, evict-Keeps, arith) depth 8

Chosen-InTable :
    (descs : ℕ → Desc) (i tmp : ℕ) (r : Scan)
    → i < 8192
    → Chosen descs (desc_table_size - i) i tmp none r
    → InTable r
Chosen-InTable descs i tmp (free_slot j) lt (a, b, c, d) = omega arith
Chosen-InTable descs i tmp (full r) lt h = tt

scan-Keeps :
    (tmp : ℕ)
    → Keeps (λ s. take_slot (scan_slots s.descs (desc_table_size - s.idx) s.idx tmp none) s)
scan-Keeps tmp = record {
  at = λ s h.
      (take_slot-Keeps (scan_slots s.descs (desc_table_size - s.idx) s.idx tmp none) (
          Chosen-InTable s.descs s.idx tmp _ h.slot
            (scan_slots_lem s.descs (desc_table_size - s.idx) s.idx tmp none))).at
        s h;
}

pub get_avalible_slot-Keeps : Keeps get_avalible_slot
unfolding get_avalible_slot
get_avalible_slot-Keeps = Keeps-bind _ _ Keeps-get_us scan-Keeps
