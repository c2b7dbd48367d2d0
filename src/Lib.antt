-- ===== src/Lib.antt =====
-- Solidbits, a server for bit strings that are kept in files.
--
-- A client sends lines over TCP. src/net.c frames them and hands one line of a connection at a time to
-- the thread pool of libuv, where src/parser.c splits it into words, finds the descriptors of its keys
-- through src/file.c, runs the command of src/bitops.c on them and replies. src/file.c keeps a table of
-- open files with a hash chain per bucket; src/helper.c makes the path of a key from its hash.
--
-- Which file models which part:
--   Prelude    the shared names: Boolean tests, lists, signed integers over the native numbers
--   Bits       bitwise operations a step and a lane at a time, and tables over bytes
--   Popcount   src/bitops.c, redisPopcount, with its wrap-around at 32 bits
--   Store      src/solidbits.h and src/file.c, the state: descs, XXTABLE, idx, the files, the clock, and
--              the list of calls of the C library that fail. The monad M passes it on; `none` is
--              behaviour that C leaves undefined. Store/Keeps is the shape of the table that
--              every operation keeps, with its rules; the Keeps modules follow the operations
--   Stdio      src/file.c, read_from and write_to, through streams with a position and an error flag
--   Paths      src/helper.c, check_dir and gen_path
--   Table      src/file.c, get_avalible_slot, close_file and init_file
--   Prepare    src/file.c, open_file, prepare_file, prepare_files, release_desc and close_files
--   Bitops     src/bitops.c, setbitCommand, getbitCommand and bitcountCommand;
--              Bitops/Parts is setbitCommand in the two parts between which other threads may run
--   Bitop      src/bitops.c, bitopCommand; Bitop/Round is its outer loop, over buffers of any
--              size, of which the code's file_buffer_size is one; Bitop/Buffers is what it, and the parser
--              for the arguments of a line, allocate and free
--   Parser     src/parser.c; Parser/Words splits lines, Parser/Cases and Parser/Execute are the
--              cases of parse_and_execute, Parser/Answer its replies, Parser/Number the C library's numbers;
--              Parser/Stalls is a line without an answer and the connection that it came from
--   Net        src/net.c, the handlers of one connection; Net/Session says in what order libuv may
--              call them, Net/Memory which blocks are live when a connection comes or a request is made,
--              Net/Lifetime what the handlers do to these, Net/Life a connection from its start to its end;
--              Net/Drain is the callbacks in turn until nothing is in flight
--   Helper     src/helper.c, strupr and time2string
--   Startup    src/main.c, with the functions of src/helper.c for its arguments, and run_server of
--              src/net.c; Startup/Address is -l, Startup/Files the files it checks, Startup/Options
--              the option loop, Startup/Run the rest of main
--   Server     the whole program: the lines of the clients of a server that src/main.c has started, one
--              after another. Server/Ops is an array of bits and the lines that ask for its bits,
--              Server/Many several of them; Server/Change and Server/Others are what a line of one
--              key leaves to the others
--   Tests      concrete inputs
--
-- How the model stands to the code. A pointer to an entry of descs is its index. A return of -1 is
-- `none` or a constructor. An operation runs with the lock of the table or of the descriptor held and
-- is one step. A handler of src/net.c is a function from the connection to the connection and the calls
-- of libuv that it makes; the outcomes of allocations and of libuv are arguments. `long` and size_t
-- values that the checks of the code keep in range are unbounded numbers; atol is cut to 64 bits, the
-- popcount to 32. Where `offset` of bitopCommand, an int, overflows, the model is undefined, and so it is
-- where the path of a key does not fit in `filename` of open_file; `buf` of parse_and_execute cuts off
-- what does not fit. XXH64 is a parameter of what calls it.
--
-- Fuel: double_until is given the number of bytes needed, count_loop the number of bytes to count, the
-- dispatch loop one round more than the bytes of the buffer, the walk along a chain the size of the
-- table, and a round of bitopCommand uses one of the reads that are left. Twenty digits hold every long.
--
-- Not modelled: src/xxhash.c and src/xxhash.h, which are a copy of a library; getopt, whose
-- results are the input of the option loop; logging; the Python client. What the operating system
-- answers at the start is a parameter.
pub mod Prelude
pub mod Bits
pub mod Popcount
pub mod Store
pub mod Stdio
pub mod Helper
pub mod Paths
pub mod Table
pub mod Prepare
pub mod Bitops
pub mod Bitop
pub mod Parser
pub mod Net
pub mod Startup
pub mod Server
pub mod Tests
