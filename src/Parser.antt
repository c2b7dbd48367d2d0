-- ===== src/Parser.antt =====
-- src/parser.c: a command line is split into words, and the first five bytes choose the command.
pub mod Words
pub mod Split
pub mod Number
pub mod Answer
pub mod Cases
pub mod Execute
pub mod Cached
pub mod Reading
pub mod Line
pub mod CountLine
pub mod Replies
pub mod Answered
pub mod Keeps
pub mod Unanswered
pub mod Stalls
pub mod Decimal
