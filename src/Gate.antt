-- ===== src/Gate.antt =====
-- gate.go: the proof of work, the nonce, the plan for an inbox's gate, and the canonical text.
pub mod Work
pub mod Plan
pub mod Canonical
