-- ===== src/Bitop/Dest.antt =====
-- One round of BITOP without a hook: the combined bytes go to the destination, which is another key
-- than the sources.
use solidbits.Prelude.{
  lt→ltb, ℕ, suc, ◌+◌, ◌<◌, ◌≡◌, ◌≢◌, refl, sym, ap, ap₂, subst, ◌∙◌, Option, none, some, List, [],
  ◌∷◌, ◌++◌, append_assoc, map, take, drop, length, take-append, drop-append, take-length,
  drop-length, drop-add, replicate, ◌==◌, false, arith,
}
use solidbits.Store.{Store, overwrite, regular, update_disk, ◌>>=◌}
use solidbits.Store.Paths.{update_disk_ne}
use solidbits.Stdio.{write_to}
use solidbits.Stdio.Transfer.{view, rewound, written, write_to_lem}
use solidbits.Stdio.Holds.{Holds, Holds-written}
use solidbits.Popcount.Spec.{AreBytes}
use solidbits.Bitop.{OpOptions, no_hook, byte_loop, combine_buffers}
use solidbits.Bitop.Eight.{AreBuffers}
use solidbits.Bitop.Wide.{byte_loop-add}
use solidbits.Bitop.Round.{
  int_bound, BitopCmd, Source, fill_buffers, reads_left, last_read, put_result, op_loop,
}
use solidbits.Bitop.Bytes.{length-byte_loop, byte_loop-AreBytes}
use solidbits.Bitop.Plan.{Reads}
use solidbits.Bitop.Sources.{AllFollow, AllAdvanced}
use solidbits.Bitop.Counted.{round_size}

-- A command without a hook.
abbrev pub plainop : List ℕ → OpOptions → BitopCmd
plainop key op = record { key = key; hook = no_hook; option = op }

-- A source that is neither the destination's descriptor nor open on its file.
abbrev pub IsApart : Store → ℕ → List ℕ → Option ℕ → Type 0
IsApart s dest pd none = Unit
IsApart s dest pd (some dt) =
    (dt ≢ dest)
    × ((path : List ℕ)
        → rewound (s.descs dt).fd ≡ some (record { path = path; pos = 0; error = false })
        → path ≢ pd)

abbrev pub AreApart : Store → ℕ → List ℕ → List (Option ℕ) → Type 0
AreApart s dest pd [] = Unit
AreApart s dest pd (dt ∷ dts) = IsApart s dest pd dt × AreApart s dest pd dts

module _ (s t : Store) (dest : ℕ) (pd bs buf : List ℕ) (offset : ℕ)
    (v : view t ≡ written (view s) dest pd bs buf offset) where
  same_stream : (dt : ℕ) → dt ≢ dest → rewound (t.descs dt).fd ≡ rewound (s.descs dt).fd
  same_stream dt ne = ap (λ (x : Store). (x.descs dt).fd) v ∙ ground arith

  Holds-apart :
      (dt : ℕ) (path cs : List ℕ) → dt ≢ dest → path ≢ pd → Holds s dt path cs → Holds t dt path cs
  Holds-apart dt path cs ne np h = record {
    is_open = record {
      stream = same_stream dt ne ∙ h.is_open.stream;
      file =
          ap (λ (x : Store). x.disk path) v
          ∙ update_disk_ne s.disk pd path _ (λ e. np (sym e))
          ∙ h.is_open.file;
      quiet = ap (λ (x : Store). x.faults) v ∙ h.is_open.quiet;
    };
    synced = ap (λ (x : Store). (x.descs dt).length) v ∙ ground (arith, h.synced);
    bytes = h.bytes;
  }

  IsApart-written : (dt : Option ℕ) → IsApart s dest pd dt → IsApart t dest pd dt
  IsApart-written none a = tt
  IsApart-written (some dt) (ne, np) = (ne, λ path e. np path (sym (same_stream dt ne) ∙ e))

  pub AreApart-written : (dts : List (Option ℕ)) → AreApart s dest pd dts → AreApart t dest pd dts
  AreApart-written [] a = tt
  AreApart-written (dt ∷ dts) (a, as') = (IsApart-written dt a, AreApart-written dts as')

  Reads-written :
      (dt : Option ℕ) (cs : List ℕ) → IsApart s dest pd dt → Reads s dt cs → Reads t dt cs
  Reads-written none cs a h = h
  Reads-written (some dt) cs (ne, np) (path, h) =
      (path, Holds-apart dt path cs ne (np path h.is_open.stream) h)

  pub AllFollow-written :
      (cap o : ℕ) (ss : List Source) (bss : List (List ℕ))
      → AreApart s dest pd (map (λ src. src.desc) ss)
      → AllFollow s cap o ss bss
      → AllFollow t cap o ss bss
  AllFollow-written cap o [] [] a f = tt
  AllFollow-written cap o [] (cs ∷ css) a f = f
  AllFollow-written cap o (src ∷ ss) [] a f = f
  AllFollow-written cap o (src ∷ ss) (cs ∷ css) (a, rest) (f, fs) = (
    record { size = f.size; reads = Reads-written src.desc cs a f.reads; left = f.left },
    AllFollow-written cap o ss css rest fs,
  )

-- Bytes written just behind those that have been put into a file.
overwrite-append :
    (pre d0 : List ℕ) (o x : ℕ) (xs : List ℕ)
    → length pre ≡ o
    → overwrite (pre ++ drop o d0) o (x ∷ xs) ≡ pre ++ ((x ∷ xs) ++ drop (o + length (x ∷ xs)) d0)
unfolding overwrite
overwrite-append pre d0 o x xs e =
    let n : ℕ = length (x ∷ xs) in
    let front : take o ((pre ++ drop o d0) ++ replicate o 0) ≡ pre =
      ap (take o) (append_assoc pre (drop o d0) (replicate o 0))
      ∙ take-append o pre (drop o d0 ++ replicate o 0) (omega (arith, e))
      ∙ take-length o pre (omega (arith, e)) in
    let back : drop (o + n) (pre ++ drop o d0) ≡ drop (o + n) d0 =
      drop-add o n (pre ++ drop o d0)
      ∙ ap (drop n) (
          drop-append o pre (drop o d0) (omega (arith, e))
          ∙ ap (λ ys. ys ++ drop o d0) (drop-length o pre (omega (arith, e))))
      ∙ sym (drop-add o n d0) in
    ap₂ (λ a b. a ++ ((x ∷ xs) ++ b)) front back

-- What the destination holds when the first `o` bytes of the result have been written.
abbrev pub so_far : OpOptions → ℕ → List ℕ → List (List ℕ) → List ℕ → List ℕ
so_far op o b0 bss d0 = byte_loop op o 0 b0 bss ++ drop o d0

so_far_next :
    (op : OpOptions) (o size : ℕ) (b0 : List ℕ) (bss : List (List ℕ)) (d0 : List ℕ) (x : ℕ)
    (xs : List ℕ)
    → byte_loop op size o b0 bss ≡ x ∷ xs
    → overwrite (so_far op o b0 bss d0) o (x ∷ xs) ≡ so_far op (o + size) b0 bss d0
so_far_next op o size b0 bss d0 x xs e =
    let n : length (x ∷ xs) ≡ size = sym (ap length e) ∙ length-byte_loop op size o b0 bss in
    overwrite-append (byte_loop op o 0 b0 bss) d0 o x xs (length-byte_loop op o 0 b0 bss)
    ∙ sym (append_assoc (byte_loop op o 0 b0 bss) (x ∷ xs) (drop (o + length (x ∷ xs)) d0))
    ∙ ap₂ (λ ys m. (byte_loop op o 0 b0 bss ++ ys) ++ drop (o + m) d0) (sym e) n
    ∙ ap (λ ys. ys ++ drop (o + size) d0)
        (ap (λ k. byte_loop op o 0 b0 bss ++ byte_loop op size k b0 bss) (omega arith)
          ∙ sym (byte_loop-add op o size 0 b0 bss))

pub op_loop_write :
    (fuel cap : ℕ) (key : List ℕ) (op : OpOptions) (dest j n r : ℕ) (ss ss' : List Source)
    (o bits : ℕ) (s t u : Store) (p0 : List ℕ) (ps : List (List ℕ))
    → reads_left ss j ≡ suc n
    → fill_buffers cap o ss s ≡ some ((p0 ∷ ps, ss'), t)
    → o + round_size cap (reads_left ss' j) (last_read ss' j) < int_bound
    → let size = round_size cap (reads_left ss' j) (last_read ss' j) in
      write_to dest (combine_buffers op size p0 ps) o t ≡ some (r, u)
      → (r == 0) ≡ false
      → op_loop (suc fuel) cap (plainop key op) (some dest) j ss o bits s
        ≡ op_loop fuel cap (plainop key op) (some dest) j ss' (o + size) bits u
unfolding op_loop put_result
op_loop_write fuel cap key op dest j n r ss ss' o bits s t u p0 ps e run low wr wrote =
    let more : (reads_left ss j == 0) ≡ false = ground (arith, e) in
    let fits = lt→ltb _ _ low in rw (more, run, ◌>>=◌, wr, wrote, fits) refl

-- A write of some bytes of the result to the destination.
pub write_result :
    (s : Store) (dest : ℕ) (pd : List ℕ) (op : OpOptions) (o size : ℕ) (b0 : List ℕ)
    (bss : List (List ℕ)) (d0 : List ℕ) (bytes : List ℕ)
    → 0 < size
    → AreBytes b0
    → AreBuffers bss
    → Holds s dest pd (so_far op o b0 bss d0)
    → byte_loop op size o b0 bss ≡ bytes
    → (t : Store) × (write_to dest bytes o s ≡ some (length bytes, t))
      × ((length bytes == 0) ≡ false)
      × (view t ≡ written (view s) dest pd (so_far op o b0 bss d0) bytes o)
      × Holds t dest pd (so_far op (o + size) b0 bss d0)
      × (t.disk ≡ update_disk s.disk pd (regular (so_far op (o + size) b0 bss d0)))
write_result s dest pd op o size b0 bss d0 [] pos b bs h e =
    absurd (omega (arith, ap length e, length-byte_loop op size o b0 bss))
write_result s dest pd op o size b0 bss d0 (x ∷ xs) pos b bs h e =
    let now = so_far op o b0 bss d0 in
    let (t, run, v) = write_to_lem s dest pd now (x ∷ xs) o h.is_open in
    let next = so_far_next op o size b0 bss d0 x xs e in
    (
      t,
      run,
      ground arith,
      v,
      subst (Holds t dest pd) next (
          Holds-written s t dest pd now o x xs h
            (subst AreBytes e (byte_loop-AreBytes op size o b0 bss b bs)) v),
      ap (λ (y : Store). y.disk) v ∙ ap (λ bytes. update_disk s.disk pd (regular bytes)) next,
    )

pub AllAdvanced-descs :
    (ss ss' : List Source)
    → AllAdvanced ss ss'
    → map (λ (src : Source). src.desc) ss' ≡ map (λ (src : Source). src.desc) ss
AllAdvanced-descs [] [] a = refl
AllAdvanced-descs [] (b ∷ bs) a = absurd a
AllAdvanced-descs (b ∷ bs) [] a = absurd a
AllAdvanced-descs (a ∷ ss) (b ∷ ss') (w, ws) = ap₂ ◌∷◌ w.desc (AllAdvanced-descs ss ss' ws)
