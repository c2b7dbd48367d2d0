-- ===== src/Bitop/Round.antt =====
-- The rounds of `bitopCommand` over the files.
use solidbits.Prelude.{
  ℕ, zero, suc, ◌+◌, ◌-◌, ◌^◌, ◌/◌, ◌%◌, Bool, true, false, Option, none, some, List, [], ◌∷◌, ◌++◌,
  length, replicate, ltb, ◌==◌, if◌then◌else◌,
}
use solidbits.Store.{M, pure, undefined, ◌>>=◌, get_desc, next_fault}
use solidbits.Stdio.{read_from, write_to, failed}
use solidbits.Popcount.{redis_popcount}
use solidbits.Bitops.{file_buffer_size}
use solidbits.Bitop.{OpOptions, OpHooks, no_hook, count_op, get_op, combine_buffers}

-- `struct bitop_cmd`; `count` is the number of sources.
pub record BitopCmd : Type 0 where
  pub key : List ℕ
  pub hook : OpHooks
  pub option : OpOptions

-- A source with its `t[i]`, the reads that are left, and its `r[i]`, the size of the last.
pub record Source : Type 0 where
  pub desc : Option ℕ
  pub len : ℕ
  pub t : ℕ
  pub r : ℕ

unfoldable pub plan_source : ℕ → Option ℕ → M Source
plan_source cap none = pure (record { desc = none; len = 0; t = 0; r = 0 })
plan_source cap (some dt) = do
  d ← get_desc dt
  let whole = d.length % cap == 0
  pure (record {
    desc = some dt;
    len = d.length;
    t = if whole then d.length / cap else d.length / cap + 1;
    r = if whole then cap else d.length % cap;
  })

unfoldable pub plan_sources : ℕ → List (Option ℕ) → M (List Source)
unfolding plan_source
plan_sources cap [] = pure []
plan_sources cap (dt ∷ dts) = do
  s ← plan_source cap dt
  rest ← plan_sources cap dts
  pure (s ∷ rest)

-- `maxidx` and `maxlen` after the sources from index `i` on; `maxidx` is only used if `maxlen` is not 0.
unfoldable pub longest : List Source → ℕ → ℕ → ℕ → ℕ × ℕ
longest [] i maxidx maxlen = (maxidx, maxlen)
longest (s ∷ ss) i maxidx maxlen =
    longest ss (i + 1) (if ltb maxlen s.len then i else maxidx)
      (if ltb maxlen s.len then s.len else maxlen)

-- `bzero` and `read_from`: the buffer, and the source with one read fewer. The result of the read is
-- not looked at.
abbrev pub buffer : ℕ → List ℕ → List ℕ
buffer cap got = got ++ replicate (cap - length got) 0

-- The same by the source's `dts[i]` and `t[i]`.
unfoldable pub fill_by : ℕ → ℕ → Source → Option ℕ → ℕ → M (List ℕ × Source)
fill_by cap offset s none t = pure (buffer cap [], s)
fill_by cap offset s (some dt) zero = pure (buffer cap [], s)
fill_by cap offset s (some dt) (suc t) = do
  (got, _) ← read_from dt (if t == 0 then s.r else cap) offset
  pure (buffer cap got, record s { t = t })

unfoldable pub fill_buffer : ℕ → ℕ → Source → M (List ℕ × Source)
unfolding fill_by
fill_buffer cap offset s = fill_by cap offset s s.desc s.t

unfoldable pub fill_buffers : ℕ → ℕ → List Source → M (List (List ℕ) × List Source)
unfolding fill_buffer
fill_buffers cap offset [] = pure ([], [])
fill_buffers cap offset (s ∷ ss) = do
  (p, s') ← fill_buffer cap offset s
  (ps, ss') ← fill_buffers cap offset ss
  pure (p ∷ ps, s' ∷ ss')

abbrev pub reads_left : List Source → ℕ → ℕ
reads_left [] i = 0
reads_left (s ∷ ss) zero = s.t
reads_left (s ∷ ss) (suc i) = reads_left ss i

abbrev pub last_read : List Source → ℕ → ℕ
last_read [] i = 0
last_read (s ∷ ss) zero = s.r
last_read (s ∷ ss) (suc i) = last_read ss i

abbrev pub combined : OpOptions → ℕ → List (List ℕ) → List ℕ
combined op size [] = []
combined op size (p0 ∷ ps) = combine_buffers op size p0 ps

-- The part of a round below the loops: whether to go on, and `bits`. A destination is needed, and is
-- there, only without a hook.
unfoldable pub put_result : OpHooks → Option ℕ → List ℕ → ℕ → ℕ → M (Option ℕ)
put_result no_hook none result offset bits = undefined
put_result no_hook (some dest) result offset bits = do
  r ← write_to dest result offset
  if r == 0 then pure none else pure (some bits)
put_result count_op dest result offset bits =
    pure (some (bits + redis_popcount result (length result)))
put_result get_op dest result offset bits = pure (some bits)

-- What `bitopCommand` returns when it has come to its end.
abbrev pub op_result : OpHooks → ℕ → ℕ → ℕ
op_result no_hook offset bits = offset
op_result count_op offset bits = bits
op_result get_op offset bits = offset

-- An `int` is below this.
abbrev pub int_bound : ℕ
int_bound = 2 ^ 31

-- `while (t[maxidx])`, with fuel for its rounds. `offset` is an int, whose overflow is undefined.
unfoldable pub op_loop : ℕ → ℕ → BitopCmd → Option ℕ → ℕ → List Source → ℕ → ℕ → M (Option ℕ)
unfolding fill_buffers put_result
op_loop zero cap cmd dest maxidx ss offset bits =
    if reads_left ss maxidx == 0 then pure (some (op_result cmd.hook offset bits)) else undefined
op_loop (suc fuel) cap cmd dest maxidx ss offset bits =
    let further = λ (ss' : List Source) (size bits' : ℕ).
      let rest = op_loop fuel cap cmd dest maxidx ss' (offset + size) bits' in
      if ltb (offset + size) int_bound then rest else undefined in
    if reads_left ss maxidx == 0
    then pure (some (op_result cmd.hook offset bits))
    else (fill_buffers cap offset ss >>= λ (ps, ss').
        let size = if reads_left ss' maxidx == 0 then last_read ss' maxidx else cap in
        put_result cmd.hook dest (combined cmd.option size ps) offset bits >>= λ r. elim r [
          | none ↦ pure none
          | some bits' ↦ further ss' size bits'
        ])

-- `op_malloc`: one allocation for each source, whether one fails.
unfoldable pub op_malloc : ℕ → M Bool
unfolding next_fault
op_malloc zero = pure false
op_malloc (suc count) = do fault ← next_fault; if failed fault then pure true else op_malloc count

-- `bitopCommand` with buffers of `cap` bytes.
unfoldable pub bitop_with : ℕ → BitopCmd → Option ℕ → List (Option ℕ) → M (Option ℕ)
unfolding plan_sources longest op_malloc op_loop
bitop_with cap cmd dest dts = do
  ss ← plan_sources cap dts
  let (maxidx, maxlen) = longest ss 0 0 0
  if maxlen == 0
      then pure (some 0)
      else (op_malloc (length dts) >>= λ oom.
          if oom then pure none else op_loop (reads_left ss maxidx) cap cmd dest maxidx ss 0 0)

unfoldable pub bitop_command : BitopCmd → Option ℕ → List (Option ℕ) → M (Option ℕ)
unfolding bitop_with
bitop_command = bitop_with file_buffer_size
