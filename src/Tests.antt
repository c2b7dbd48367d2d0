-- ===== src/Tests.antt =====
-- Concrete inputs for the theorems: a store with one open file, command lines, and a connection.
mod Demo
mod Commands
mod Words
mod Files
mod Connection
mod Startup
mod Operations
mod Server
