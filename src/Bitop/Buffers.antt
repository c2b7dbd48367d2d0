-- ===== src/Bitop/Buffers.antt =====
-- src/bitops.c, op_malloc and op_free, and src/parser.c, split_fill and free_args: the arrays of blocks
-- that a command allocates, and where they are freed.
use solidbits.Prelude.{
  ℕ, zero, suc, ◌+◌, ◌≡◌, refl, ap, ◌∙◌, Bool, true, false, not, ◌||◌, Option, none, some, List, [],
  ◌∷◌, length, ◌==◌, if◌then◌else◌, inl, inr, Bool-cases, arith,
}
use solidbits.Net.Memory.{◌>>=◌}
use solidbits.Store.{Store, next_fault}
use solidbits.Stdio.{failed}
use solidbits.Bitop.Round.{op_malloc}

-- `p[i]` or `args[i]`, and the array `args` itself; `p` is on the stack.
pub data Block : Type 0 where
  array : Block
  part : ℕ → Block

abbrev same_block : Block → Block → Bool
same_block array array = true
same_block array (part i) = false
same_block (part i) array = false
same_block (part i) (part j) = i == j

-- The live blocks. `free` of a block that is not live is undefined.
abbrev pub Heap : Type 0
Heap = List Block

unfoldable pub free : Block → Heap → Option Heap
free b [] = none
free b (x ∷ xs) =
    let rest = free b xs in
    if same_block b x then some xs else elim rest [ none ↦ none | some ys ↦ some (x ∷ ys) ]

-- `while (count--) free(p[count]);`
unfoldable pub op_free : ℕ → Heap → Option Heap
unfolding free
op_free zero heap = some heap
op_free (suc count) heap = free (part count) heap >>= op_free count

-- `op_malloc` from index `i`, with whether each `posix_memalign` that is left gives memory, and what it
-- returns: true is -1.
unfoldable pub op_malloc_from : List Bool → ℕ → Heap → Option (Bool × Heap)
unfolding op_free
op_malloc_from [] i heap = some (false, heap)
op_malloc_from (made ∷ more) i heap =
    let rest = op_malloc_from more (suc i) (part i ∷ heap) in
    if made then rest else op_free i heap >>= λ heap. some (true, heap)

-- The rounds of `bitopCommand`, with whether the write of each succeeds: they allocate nothing, a write
-- that fails is followed by an `op_free`, and the end of the loop by another.
unfoldable pub rounds_blocks : List Bool → ℕ → Heap → Option Heap
unfolding op_free
rounds_blocks [] count heap = op_free count heap
rounds_blocks (written ∷ more) count heap =
    let rest = rounds_blocks more count heap in if written then rest else op_free count heap

-- `bitopCommand` up to its loop.
unfoldable pub bitop_blocks : ℕ → List Bool → List Bool → Heap → Option Heap
unfolding op_malloc_from rounds_blocks
bitop_blocks maxlen made writes heap =
    if maxlen == 0
    then some heap
    else op_malloc_from made 0 heap >>= λ (r : Bool × Heap).
        if r.0 then some r.1 else rounds_blocks writes (length made) r.1

-- The `for` loop of `split_fill` from index `i`, with the number of arguments that are left.
unfoldable pub fill_from : ℕ → ℕ → Heap → Heap
fill_from zero i heap = heap
fill_from (suc count) i heap = fill_from count (suc i) (part i ∷ heap)

unfoldable pub split_fill_blocks : ℕ → Heap → Heap
unfolding fill_from
split_fill_blocks count heap = fill_from count 0 (array ∷ heap)

-- `free_args`, whose loop is that of `op_free`.
unfoldable pub free_args : ℕ → Heap → Option Heap
unfolding op_free free
free_args count heap = op_free count heap >>= free array

-- The first `n` blocks, the last one in front.
abbrev pub parts : ℕ → Heap → Heap
parts zero heap = heap
parts (suc n) heap = part n ∷ parts n heap

abbrev pub oom : List Bool → Bool
oom [] = false
oom (made ∷ more) = not made || oom more

free_front : (n : ℕ) (heap : Heap) → free (part n) (part n ∷ heap) ≡ some heap
unfolding free
free_front n heap = let e : (n == n) ≡ true = ground arith in rw e refl

op_free_lem : (n : ℕ) (heap : Heap) → op_free n (parts n heap) ≡ some heap
unfolding op_free
op_free_lem zero heap = refl
op_free_lem (suc n) heap = rw (free_front n (parts n heap)) (op_free_lem n heap)

op_malloc_lem :
    (made : List Bool) (i : ℕ) (heap : Heap)
    → op_malloc_from made i (parts i heap)
      ≡ some (oom made, if oom made then heap else parts (length made + i) heap)
unfolding op_malloc_from
op_malloc_lem [] i heap = let e : i ≡ 0 + i = omega arith in ap (λ n. some (false, parts n heap)) e
op_malloc_lem (false ∷ more) i heap = rw (op_free_lem i heap) refl
op_malloc_lem (true ∷ more) i heap =
    let e : length more + suc i ≡ suc (length more) + i = omega arith in
    op_malloc_lem more (suc i) heap
    ∙ ap (λ n. some (oom more, if oom more then heap else parts n heap)) e

fill_from_lem : (n i : ℕ) (heap : Heap) → fill_from n i (parts i heap) ≡ parts (n + i) heap
unfolding fill_from
fill_from_lem zero i heap = let e : i ≡ 0 + i = omega arith in ap (λ n. parts n heap) e
fill_from_lem (suc n) i heap =
    let e : n + suc i ≡ suc n + i = omega arith in
    fill_from_lem n (suc i) heap ∙ ap (λ k. parts k heap) e

free_args_lem : (n : ℕ) (heap : Heap) → free_args n (split_fill_blocks n heap) ≡ some heap
unfolding free_args split_fill_blocks free
free_args_lem n heap =
    let e : n + 0 ≡ n = omega arith in
    rw (fill_from_lem n 0 (array ∷ heap), e, op_free_lem n (array ∷ heap)) refl

rounds_blocks_lem :
    (writes : List Bool) (n : ℕ) (heap : Heap) → rounds_blocks writes n (parts n heap) ≡ some heap
unfolding rounds_blocks
rounds_blocks_lem [] n heap = op_free_lem n heap
rounds_blocks_lem (true ∷ more) n heap = rounds_blocks_lem more n heap
rounds_blocks_lem (false ∷ more) n heap = op_free_lem n heap

bitop_blocks_lem :
    (maxlen : ℕ) (made writes : List Bool) (heap : Heap)
    → bitop_blocks maxlen made writes heap ≡ some heap
unfolding bitop_blocks
bitop_blocks_lem maxlen made writes heap =
    let e : length made + 0 ≡ length made = omega arith in
    elim (Bool-cases (maxlen == 0)) [
      | inl none_there ↦ rw none_there refl
      | inr some_there ↦ elim (Bool-cases (oom made)) [
        | inl full ↦ rw (some_there, op_malloc_lem made 0 heap, full) refl
        | inr fits ↦
            rw (some_there, op_malloc_lem made 0 heap, fits, e)
              (rounds_blocks_lem writes (length made) heap)
      ]
    ]

-- Which of the next `n` allocations give memory.
abbrev pub outcomes : ℕ → List (Option ℕ) → List Bool
outcomes zero fs = []
outcomes (suc n) [] = true ∷ outcomes n []
outcomes (suc n) (f ∷ fs) = not (failed f) ∷ outcomes n fs

length-outcomes : (n : ℕ) (fs : List (Option ℕ)) → length (outcomes n fs) + 0 ≡ n
length-outcomes zero fs = refl
length-outcomes (suc n) [] =
    let ih : length (outcomes n []) + 0 ≡ n = length-outcomes n [] in omega arith
length-outcomes (suc n) (f ∷ fs) =
    let ih : length (outcomes n fs) + 0 ≡ n = length-outcomes n fs in omega arith

op_malloc_agrees :
    (n : ℕ) (s : Store) (fs : List (Option ℕ))
    → s.faults ≡ fs
    → (t : Store) × (op_malloc n s ≡ some (oom (outcomes n fs), t))
unfolding op_malloc next_fault
op_malloc_agrees zero s fs e = (s, refl)
op_malloc_agrees (suc n) s [] e =
    let (t, q) = op_malloc_agrees n (record s { faults = [] }) [] refl in (t, rw e q)
op_malloc_agrees (suc n) s (f ∷ fs) e = elim (Bool-cases (failed f)) [
  | inl fails ↦ (record s { faults = fs }, rw (e, fails) refl)
  | inr made ↦
      let (t, q) = op_malloc_agrees n (record s { faults = fs }) fs refl in (t, rw (e, made) q)
]

-- For any number of sources, whatever the state of the files and whichever of the allocations fail:
-- `op_malloc` reports the failure exactly if one of the allocations fails, and then has freed
-- the buffers that it had got, and no others; else it has got one for each source. On each way out of
-- `bitopCommand` (no bytes, no memory, a write that fails in any round, the end of the loop) the live
-- blocks are those that were live when it was called, and none is freed twice. And `free_args` frees
-- exactly what `split_fill` has allocated, for any number of arguments.
pub arrays_freed :
    (maxlen count args : ℕ) (writes : List Bool) (s : Store) (heap : Heap)
    → let made = outcomes count s.faults in
      ((t : Store) × (op_malloc count s ≡ some (oom made, t)))
      × (op_malloc_from made 0 heap ≡ some (oom made, if oom made then heap else parts count heap))
      × (bitop_blocks maxlen made writes heap ≡ some heap)
      × (free_args args (split_fill_blocks args heap) ≡ some heap)
arrays_freed maxlen count args writes s heap =
    let made = outcomes count s.faults in
    (
      op_malloc_agrees count s s.faults refl,
      op_malloc_lem made 0 heap
          ∙ ap (λ n. some (oom made, if oom made then heap else parts n heap))
              (length-outcomes count s.faults),
      bitop_blocks_lem maxlen made writes heap,
      free_args_lem args heap,
    )
