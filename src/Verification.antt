-- ===== src/Verification.antt =====
-- Theorems about verification.py's `verify_intent`: what a pass and a failure imply, and what a call
-- leaves in the store and the trust engine.
mod Hoare
mod Frames
mod Kept
mod Cache
mod Learn
pub mod Coded
pub mod Unauthenticated
pub mod Replay
pub mod Sound
pub mod Permanent
pub mod Bounded
