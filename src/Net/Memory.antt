-- ===== src/Net/Memory.antt =====
-- src/net.c, on_connection and on_close, and the allocations of dispatch_line: which blocks of memory are
-- live, on every branch.
use solidbits.Prelude.{
  ◌≡◌, refl, Bool, true, false, not, ◌&&◌, Option, none, some, List, [], ◌∷◌, if◌then◌else◌,
}
use solidbits.Net.{Conn, new_conn}

-- The blocks that net.c allocates for a connection, for a request, and for libuv to read into.
pub data Block : Type 0 where
  conn_block : Block
  rbuf_block : Block
  work_block : Block
  line_block : Block
  resp_block : Block
  read_block : Block

abbrev pub same_block : Block → Block → Bool
same_block conn_block conn_block = true
same_block rbuf_block rbuf_block = true
same_block work_block work_block = true
same_block line_block line_block = true
same_block resp_block resp_block = true
same_block read_block read_block = true
same_block a b = false

infixl 5 ◌>>=◌
abbrev pub ◌>>=◌ : {A B : Type 0} → Option A → (A → Option B) → Option B
none >>= f = none
some a >>= f = f a

-- The live blocks. `free` of a block that is not live is undefined.
abbrev pub Heap : Type 0
Heap = List Block

unfoldable pub free : Block → Heap → Option Heap
free b [] = none
free b (x ∷ xs) =
    let rest = free b xs in
    if same_block b x then some xs else elim rest [ none ↦ none | some ys ↦ some (x ∷ ys) ]

-- What the calls of `on_connection` report: whether the connection came without an error, whether
-- `calloc` and `malloc` gave memory, and whether the calls of libuv returned 0.
pub record Attempt : Type 0 where
  pub status : Bool
  pub calloc : Bool
  pub malloc : Bool
  pub tcp_init : Bool
  pub accept : Bool
  pub read_start : Bool

-- How it returns: without a handle, with a handle that `uv_close` was called on, or with one that libuv
-- reads from.
pub data Outcome : Type 0 where
  refused : Outcome
  closes : Outcome
  reads_from : Conn → Outcome

-- `on_close`.
unfoldable pub on_close : Heap → Option Heap
unfolding free
on_close heap = do heap ← free rbuf_block heap; free conn_block heap

-- The part of `on_connection` below the two allocations.
unfoldable pub open_handle : Attempt → Heap → Option (Outcome × Heap)
unfolding free
open_handle a heap =
    if not a.tcp_init
    then (do heap ← free rbuf_block heap; heap ← free conn_block heap; some (refused, heap))
    else if a.accept
    then if a.read_start then some (reads_from new_conn, heap) else some (closes, heap)
    else some (closes, heap)

unfoldable pub on_connection : Attempt → Heap → Option (Outcome × Heap)
unfolding free open_handle
on_connection a heap =
    if not a.status
    then some (refused, heap)
    else if not a.calloc
    then some (refused, heap)
    else if not a.malloc
    then (do heap ← free conn_block (conn_block ∷ heap); some (refused, heap))
    else open_handle a (rbuf_block ∷ conn_block ∷ heap)

-- The allocations of `dispatch_line`: whether all three were made, so that the request is queued.
unfoldable pub new_request : Bool → Bool → Bool → Heap → Option (Bool × Heap)
unfolding free
new_request calloc malloc_line malloc_resp heap =
    if not calloc
    then some (false, heap)
    else if not malloc_line
    then (do heap ← free work_block (work_block ∷ heap); some (false, heap))
    else if not malloc_resp
    then (do
      heap ← free line_block (line_block ∷ work_block ∷ heap)
      heap ← free work_block heap
      some (false, heap))
    else some (true, resp_block ∷ line_block ∷ work_block ∷ heap)

-- The three that `on_write` frees, as does each end of `after_work_cb` that writes nothing.
unfoldable pub free_request : Heap → Option Heap
unfolding free
free_request heap = do
  heap ← free line_block heap
  heap ← free resp_block heap
  free work_block heap

-- The heap once the outcome has run its course: `on_close` gives back what is left of a connection, and
-- libuv reads only from one for which every call was good.
abbrev Left : Attempt → Heap → Outcome × Heap → Type 0
Left a heap (refused, now) = now ≡ heap
Left a heap (closes, now) = on_close now ≡ some heap
Left a heap (reads_from c, now) =
    (c ≡ new_conn)
    × (on_close now ≡ some heap)
    × (a ≡ record {
      status = true;
      calloc = true;
      malloc = true;
      tcp_init = true;
      accept = true;
      read_start = true;
    })

abbrev pub Accepts : Attempt → Heap → Type 0
Accepts a heap = (r : Outcome × Heap) × (on_connection a heap ≡ some r) × Left a heap r

accepts :
    (status calloc malloc tcp_init accept read_start : Bool) (heap : Heap)
    → Accepts
        (record {
          status = status;
          calloc = calloc;
          malloc = malloc;
          tcp_init = tcp_init;
          accept = accept;
          read_start = read_start;
        })
        heap
unfolding on_connection on_close
accepts false b c d e f heap = (_, refl, refl)
accepts true false c d e f heap = (_, refl, refl)
accepts true true false d e f heap = (_, refl, refl)
accepts true true true false e f heap = (_, refl, refl)
accepts true true true true false f heap = (_, refl, refl)
accepts true true true true true false heap = (_, refl, refl)
accepts true true true true true true heap = (_, refl, (refl, refl, refl))

-- A request that is queued holds three blocks, which go when it ends; one that is not holds none.
abbrev pub Requests : Bool → Bool → Bool → Heap → Type 0
Requests x y z heap =
    (now : Heap) × (new_request x y z heap ≡ some (x && y && z, now))
    × ((if x && y && z then free_request now else some now) ≡ some heap)

requests : (x y z : Bool) (heap : Heap) → Requests x y z heap
unfolding new_request free_request
requests false y z heap = (_, refl, refl)
requests true false z heap = (_, refl, refl)
requests true true false heap = (_, refl, refl)
requests true true true heap = (_, refl, refl)

-- Whichever of its calls fail, `on_connection` frees no block that is not live and leaks none: it
-- returns with the heap that it was called with, or with a handle for which `on_close` gives that heap
-- back, and libuv reads from the handle only if every call was good, with the connection as it
-- starts out. So does `dispatch_line`: it queues the request exactly if its three allocations are made,
-- and then freeing the request gives the heap back; else it has given it back itself.
pub nothing_leaks :
    (a : Attempt) (x y z : Bool) (heap : Heap) → Accepts a heap × Requests x y z heap
nothing_leaks a x y z heap =
    (accepts a.status a.calloc a.malloc a.tcp_init a.accept a.read_start heap, requests x y z heap)
