-- ===== src/Bitop/Keeps.antt =====
-- BITOP keeps the table tidy.
use solidbits.Prelude.{ℕ, zero, suc, Option, none, some, List, [], ◌∷◌}
use solidbits.Store.Keeps.{
  Keeps, Keeps-undefined, keeps_rules, Keeps-bind, Keeps-pure, Keeps-if, Keeps-option,
  Keeps-next_fault,
}
use solidbits.Stdio.Keeps.{read_from-Keeps, write_to-Keeps}
use solidbits.Bitop.{OpHooks, no_hook, count_op, get_op}
use solidbits.Bitop.Round.{
  BitopCmd, Source, plan_source, plan_sources, fill_by, fill_buffers, put_result, op_loop,
  op_malloc, bitop_with, bitop_command,
}

plan_source-Keeps : (cap : ℕ) (dt : Option ℕ) → Keeps (plan_source cap dt)
unfolding plan_source
plan_source-Keeps cap none = search (keeps_rules) depth 6
plan_source-Keeps cap (some dt) = search (keeps_rules) depth 6

plan_sources-Keeps : (cap : ℕ) (dts : List (Option ℕ)) → Keeps (plan_sources cap dts)
unfolding plan_sources
plan_sources-Keeps cap [] = search (keeps_rules) depth 6
plan_sources-Keeps cap (dt ∷ dts) =
    Keeps-bind _ _ (plan_source-Keeps cap dt)
      λ s. Keeps-bind _ _ (plan_sources-Keeps cap dts) λ rest. Keeps-pure _

fill_by-Keeps :
    (cap offset : ℕ) (s : Source) (dt : Option ℕ) (t : ℕ) → Keeps (fill_by cap offset s dt t)
unfolding fill_by
fill_by-Keeps cap offset s none t = search (keeps_rules) depth 6
fill_by-Keeps cap offset s (some dt) zero = search (keeps_rules) depth 6
fill_by-Keeps cap offset s (some dt) (suc t) = search (keeps_rules, read_from-Keeps) depth 8

fill_buffers-Keeps : (cap offset : ℕ) (ss : List Source) → Keeps (fill_buffers cap offset ss)
unfolding fill_buffers
fill_buffers-Keeps cap offset [] = search (keeps_rules) depth 6
fill_buffers-Keeps cap offset (s ∷ ss) =
    Keeps-bind _ _ (fill_by-Keeps cap offset s s.desc s.t)
      λ p. Keeps-bind _ _ (fill_buffers-Keeps cap offset ss) λ ps. Keeps-pure _

put_result-Keeps :
    (hook : OpHooks) (dest : Option ℕ) (result : List ℕ) (offset bits : ℕ)
    → Keeps (put_result hook dest result offset bits)
unfolding put_result
put_result-Keeps no_hook none result offset bits = search (keeps_rules) depth 6
put_result-Keeps no_hook (some dest) result offset bits =
    search (keeps_rules, write_to-Keeps) depth 8
put_result-Keeps count_op dest result offset bits = search (keeps_rules) depth 6
put_result-Keeps get_op dest result offset bits = search (keeps_rules) depth 6

op_loop-Keeps :
    (fuel cap : ℕ) (cmd : BitopCmd) (dest : Option ℕ) (maxidx : ℕ) (ss : List Source)
    (offset bits : ℕ)
    → Keeps (op_loop fuel cap cmd dest maxidx ss offset bits)
unfolding op_loop
op_loop-Keeps zero cap cmd dest maxidx ss offset bits = search (keeps_rules) depth 6
op_loop-Keeps (suc fuel) cap cmd dest maxidx ss offset bits = Keeps-if _ _ _ (Keeps-pure _) (
    Keeps-bind _ _ (fill_buffers-Keeps cap offset ss) λ p.
      Keeps-bind _ _ (put_result-Keeps cmd.hook dest _ offset bits) λ r.
        Keeps-option r _ _ (Keeps-pure _) (λ bits'.
          Keeps-if _ _ _ (op_loop-Keeps fuel cap cmd dest maxidx _ _ bits') Keeps-undefined))

op_malloc-Keeps : (count : ℕ) → Keeps (op_malloc count)
unfolding op_malloc
op_malloc-Keeps zero = search (keeps_rules) depth 6
op_malloc-Keeps (suc count) =
    Keeps-bind _ _ Keeps-next_fault λ fault. Keeps-if _ _ _ (Keeps-pure _) (op_malloc-Keeps count)

bitop_with-Keeps :
    (cap : ℕ) (cmd : BitopCmd) (dest : Option ℕ) (dts : List (Option ℕ))
    → Keeps (bitop_with cap cmd dest dts)
unfolding bitop_with
bitop_with-Keeps cap cmd dest dts =
    search (keeps_rules, plan_sources-Keeps, op_malloc-Keeps, op_loop-Keeps) depth 10

pub bitop_command-Keeps :
    (cmd : BitopCmd) (dest : Option ℕ) (dts : List (Option ℕ)) → Keeps (bitop_command cmd dest dts)
unfolding bitop_command
bitop_command-Keeps cmd dest dts = bitop_with-Keeps _ cmd dest dts
