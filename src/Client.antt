-- ===== src/Client.antt =====
-- client.go: messages as they are read, allowlists, and the reads.
pub mod Http
pub mod Message
pub mod Allow
pub mod Read
pub mod Session
pub mod Requests
pub mod Answers
pub mod Call
