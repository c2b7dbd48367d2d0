-- ===== src/Tests/Connection.antt =====
-- One connection, its buffers and its lines.
use solidbits.Prelude.{
  length, ◌+◌, ◌*◌, ◌≤◌, ℕ, ◌≡◌, refl, true, false, some, List, [], ◌∷◌, ◌++◌, ◌==◌, if◌then◌else◌,
  arith,
}
use solidbits.Net.{
  Conn, WorkReq, chunk, new_conn, new_work, memchr, double_until, reply, on_read, after_work_cb,
  dispatch_loop, append_and_dispatch, dispatch_line,
}
use solidbits.Net.Grow.{Grown, double_until_lem}
use solidbits.Net.Reply.{Fits, reply-Fits}
use solidbits.Net.Framing.{FirstLine, memchr-FirstLine, dispatch_first, dispatch_loop_lem}
use solidbits.Net.Session.{Step, Session, idle, working, Reach, begin, next, reads, start, after}
use solidbits.Net.Lifetime.{Memory}
use solidbits.Net.Live.{live}
use solidbits.Net.Drain.{drain, Answers, Awake, Answered, lines_answered}
use solidbits.Net.Life.{
  Life, accepted, calls, read_call, work_call, life_blocks, close_callback, life_frees,
}
use solidbits.Net.Invariant.{Inv, Reach-Inv}
use solidbits.Net.Memory.{Attempt, conn_block, Accepts, Requests, nothing_leaks, ◌>>=◌}
use solidbits.Parser.Answer.{Answer, codes}
use solidbits.Parser.Execute.{parse_and_execute}
use solidbits.Parser.Stalls.{finished, Stalled, bitpos_stalls}
use solidbits.Tests.Demo.{demo_hash, demo_store}

-- Two lines and a half.
abbrev sent : List ℕ
sent = codes "ab" ++ (b'\n' ∷ codes "c") ++ (b'\n' ∷ codes "d")

abbrev first_read : Session
first_read = after (record start { received = sent }) (on_read true true new_conn (chunk sent))

first_read-Reach : Reach first_read
first_read-Reach = next begin (reads true true (chunk sent) refl)

Reach-Inv_example : Inv first_read
Reach-Inv_example = Reach-Inv first_read-Reach

-- A connection that has answered its first line and holds the rest.
abbrev holding : Conn
holding = record new_conn { rbuf = codes "c" ++ (b'\n' ∷ codes "d"); busy = true }

found_c : memchr b'\n' holding.rbuf ≡ some 1
unfolding memchr
found_c = refl

found_ab : memchr b'\n' sent ≡ some 2
unfolding memchr
found_ab = refl

memchr-FirstLine_example : FirstLine sent 2
memchr-FirstLine_example = memchr-FirstLine sent 2 found_ab

dispatch_loop_lem_example :
    dispatch_loop 3 true (record new_conn { rbuf = sent }) 0 []
    ≡ dispatch_first true (record new_conn { rbuf = sent })
dispatch_loop_lem_example = dispatch_loop_lem 2 true (record new_conn { rbuf = sent })

new_work-Fits : (l : List ℕ) → Fits (new_work l)
new_work-Fits l = record { some_room = omega arith; within = omega arith }

reply-Fits_example : Fits (reply false (new_work []) sent 3)
reply-Fits_example = reply-Fits false (new_work []) sent 3 (new_work-Fits [])

double_until_lem_example : Grown 64 1000 (double_until 936 64 1000)
double_until_lem_example = double_until_lem 936 64 1000 (omega arith) (omega arith)

-- `uv_accept` fails, and so does the last allocation of a request.
abbrev not_accepted : Attempt
not_accepted = record {
  status = true;
  calloc = true;
  malloc = true;
  tcp_init = true;
  accept = false;
  read_start = true;
}

nothing_leaks_example :
    Accepts not_accepted (conn_block ∷ []) × Requests true true false (conn_block ∷ [])
nothing_leaks_example = nothing_leaks not_accepted true true false (conn_block ∷ [])

-- A line is read and answered, and its write fails at once, so that the handle is closed.
abbrev all_there : Memory
all_there = record {
  base = true;
  realloc = true;
  calloc = true;
  malloc_line = true;
  malloc_resp = true;
}

abbrev answer : WorkReq
answer = record (new_work (codes "ab")) { resp_buf = codes "1" }

first_read_works : first_read.phase ≡ working (codes "ab")
unfolding on_read append_and_dispatch dispatch_loop dispatch_line memchr
first_read_works = refl

abbrev short_life : Life first_read
short_life = calls accepted (read_call all_there (chunk sent) refl)

abbrev whole_life : Life (
    after
      (record first_read { phase = idle; answered = first_read.answered ++ codes "ab" ∷ [] })
      (after_work_cb true false first_read.conn answer))
whole_life = calls short_life (work_call true false answer first_read_works)

life_frees_example :
    let s =
      after
        (record first_read { phase = idle; answered = first_read.answered ++ codes "ab" ∷ [] })
        (after_work_cb true false first_read.conn answer) in
    (life_blocks whole_life ≡ some (live s.conn))
    × ((life_blocks whole_life >>= close_callback s)
        ≡ some (if s.closes == 1 then [] else live s.conn))
life_frees_example = life_frees whole_life

-- A worker that answers 1 to every line.
abbrev says_one : List ℕ → WorkReq
says_one l = record (new_work l) { resp_buf = codes "1" }

says_one-Answers : Answers says_one
says_one-Answers = record { line = λ l. refl; some_bytes = λ l. refl; has_memory = λ l. refl }

first_read_stays : first_read.conn.closing ≡ false
unfolding on_read append_and_dispatch dispatch_loop dispatch_line memchr
first_read_stays = refl

first_read_rest : 2 * length first_read.conn.rbuf + 2 ≤ 8
unfolding on_read append_and_dispatch dispatch_loop dispatch_line memchr
first_read_rest = omega arith

first_read-Awake : Awake first_read
first_read-Awake e = let w = first_read_works in cc

lines_answered_example : Answered first_read (drain 8 says_one first_read)
lines_answered_example =
    lines_answered 8 says_one first_read says_one-Answers first_read-Reach first_read_stays
      first_read-Awake first_read_rest

-- A worker is at a BITPOS line, and the next line is there.
abbrev asked_bitpos : Session
asked_bitpos = record start { conn = holding; phase = working (codes "BITPOS k 1") }

bitpos_stalls_example :
    (a : Answer) × (parse_and_execute demo_hash (codes "BITPOS k 1") demo_store
      ≡ some (a, demo_store))
    × Step asked_bitpos (finished asked_bitpos (codes "BITPOS k 1") true true a)
    × Stalled (finished asked_bitpos (codes "BITPOS k 1") true true a) 1
bitpos_stalls_example =
    bitpos_stalls demo_hash (codes "BITPOS k 1") demo_store asked_bitpos true true 1 (omega arith)
      refl refl refl found_c
