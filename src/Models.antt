-- ===== src/Models.antt =====
-- custos_protocol/models.py: the wire messages and domain objects. An aware `datetime` is its number
-- of microseconds, a `date` its number of days, both from the start of datetime's range; what a
-- constructor of pydantic refuses is a Boolean test here, `false` where it raises.
mod Policy
mod Message
mod Asset
mod Outcome
unfoldable pub use Policy.*
unfoldable pub use Message.*
unfoldable pub use Asset.*
unfoldable pub use Outcome.*
