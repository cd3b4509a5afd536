-- ===== src/Pipeline.antt =====
-- custos_protocol/verification.py: the verification pipeline. `Context` has its state and the monad
-- that an early return leaves, `Admit` steps 1 to 4, `Stages` steps 5 to 11, `Verify` the whole.
mod Context
mod Admit
mod Stages
mod Verify
unfoldable pub use Context.*
unfoldable pub use Admit.*
unfoldable pub use Stages.*
unfoldable pub use Verify.*
