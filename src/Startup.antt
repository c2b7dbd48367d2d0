-- ===== src/Startup.antt =====
-- src/main.c and the functions of src/helper.c that it calls: the command line, the checks of its
-- arguments, and the start of the server.
pub mod Address
pub mod Files
pub mod Options
pub mod Run
pub mod Listen
pub mod Accepted
pub mod Started
pub mod Complete
pub mod Longest
