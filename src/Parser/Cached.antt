-- ===== src/Parser/Cached.antt =====
-- A command on a key whose descriptor is open and in step with its file, from the command line to the
-- reply.
use solidbits.Prelude.{ℕ, ◌≡◌, ◌<◌, ap, ◌∙◌, none, some, List, [], ◌∷◌, length}
use solidbits.Store.Keys.{SameKeys-trans}
use solidbits.Store.{Node, regular, update_disk, Store, ◌>>=◌}
use solidbits.Stdio.Holds.{Holds}
use solidbits.Bitops.{SetbitCmd}
use solidbits.Bitops.Bit.{bit_at}
use solidbits.Bitops.SetGet.{BitSet, setbit_command_lem}
use solidbits.Prepare.{create, found}
use solidbits.Prepare.Lookup.{
  looked_up, Touched, Released, prepare_file_hit, Holds-Touched, Holds-Released, release_desc_lem,
}
use solidbits.Parser.Number.{decimal_line, printed, buf_size}
use solidbits.Parser.Answer.{Answer, answer, answer_result}
use solidbits.Parser.Cases.{finish, release_all_descs}
use solidbits.Parser.Execute.{run_setbit}

-- The reply that carries a number.
abbrev pub number : ℕ → Answer
number n = answer (printed buf_size (decimal_line n)) (length (decimal_line n))

pub finish_lem :
    (s : Store) (dt n : ℕ)
    → (t : Store) × (finish (some dt ∷ []) (some n) s ≡ some (number n, t)) × Released s t dt
unfolding finish release_all_descs answer_result
finish_lem s dt n =
    let (t, e, w) = release_desc_lem s dt in
    (t, ap (λ r. elim r [ none ↦ none | some (u, t) ↦ some (number n, t) ]) e, w)

BitSet-kept :
    (s s' t t' : Store) (dt : ℕ) (path bs : List ℕ) (offset value : ℕ)
    → Touched s s' dt
    → Released t t' dt
    → BitSet s' t dt path bs offset value
    → BitSet s t' dt path bs offset value
BitSet-kept s s' t t' dt path bs offset value w w' b = record {
  now = b.now;
  holds = Holds-Released t t' dt path b.now w' b.holds;
  bits = b.bits;
  others =
      w'.disk ∙ b.others ∙ ap (λ (d : List ℕ → Node). update_disk d path (regular b.now)) w.disk;
  keys = SameKeys-trans s s' t' dt w.keys (SameKeys-trans s' t t' dt b.keys w'.keys);
}

pub run_setbit_lem :
    (xxh64 : List ℕ → ℕ) (s : Store) (dt : ℕ) (path bs : List ℕ) (cmd : SetbitCmd)
    → looked_up s (xxh64 cmd.key) ≡ found dt
    → Holds s dt path bs
    → cmd.value < 2
    → (t : Store) × (run_setbit xxh64 cmd s ≡ some (number (bit_at bs cmd.offset), t))
      × BitSet s t dt path bs cmd.offset cmd.value
unfolding run_setbit
run_setbit_lem xxh64 s dt path bs cmd h o hv =
    let (s', e, w) = prepare_file_hit xxh64 cmd.key create s dt h in
    let (t, run, b) = setbit_command_lem s' dt path bs cmd (Holds-Touched s s' dt path bs w o) hv in
    let (t', done, w') = finish_lem t dt (bit_at bs cmd.offset) in
    (t', rw (e, ◌>>=◌, run, done), BitSet-kept s s' t t' dt path bs cmd.offset cmd.value w w' b)
