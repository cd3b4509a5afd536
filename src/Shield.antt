-- ===== src/Shield.antt =====
-- custos_protocol/shield.py: a callable that runs behind a verification. The callable and the resolvers
-- are the caller's code, functions on a state of the caller's; binding a call's arguments to their
-- names is Python's.
pub mod Gate
pub mod Unresolved
pub mod Verify
use asset_embedding_protocol.Prelude.{
  ℕ, String, Bool, true, false, Option, none, some, List, [], ◌∷◌, ◌==◌, nat_eq, string_eq,
  if◌then◌else◌, contains, not, zero, suc, ◌+◌, ◌-◌, ◌*◌, ◌/◌, ◌%◌, ◌^◌, ◌≤◌, ◌<◌, ◌≡◌, refl, sym,
  ap, ◌∙◌, subst, ◌≢◌, ◌↔◌, ◌⊎◌, inl, inr, ◌&&◌, ◌||◌, ◌++◌, map, arith, eq_iff, ltb, leb, ltb→lt,
  leb→le, tests, Eq, Bool-cases, Option-cases, &&_true, length, length-append, is_nonempty, All,
  All-append, All-map, subset, Among, contains-Among, Among-contains, contains-subset,
  subset-nonempty,
}
use asset_embedding_protocol.Number.{Float, Decimal}
use asset_embedding_protocol.Dict
use asset_embedding_protocol.Dict.{Dict}
use asset_embedding_protocol.Models.{
  text, CustosEnvelope, Claim, is_truthy, Value, Observation, Action, VerificationTier,
}
use asset_embedding_protocol.Pipeline.{
  returned, raised, Readings, verify_intent, VerificationResult, Outcome, State, Arguments,
}
use asset_embedding_protocol.Trust.{TrustEngine}
use asset_embedding_protocol.Envelope.{create_envelope, Signing, sign_envelope}
use asset_embedding_protocol.Canonical.{Platform}
use asset_embedding_protocol.Delegation.{DelegationConfig}
use asset_embedding_protocol.Drift.{DriftConfig}
use asset_embedding_protocol.Revocation.{RevocationStore, new_store}
use asset_embedding_protocol.Passport.{AgentPassport}

-- the arguments of a call: bound to the names of the signature, if it binds them, and by keyword
pub record CallArguments (F : Type 0) : Type 0 where
  pub bound : Option (Dict (Value F))
  pub kwargs : Dict (Value F)

-- _build_parameters
unfoldable pub build_parameters : {F : Type 0} → CallArguments F → Dict (Value F)
build_parameters a = elim a.bound [
  | none ↦ Dict.remove "self" a.kwargs
  | some bound ↦ Dict.remove "self" bound
]

-- parameters.pop("target", None) or target, `none` where the intent refuses what is no text
unfoldable pub call_target : {F : Type 0} ⦃f : Float F⦄ → Option (Value F) → String → Option String
unfolding is_truthy
call_target none target = some target
call_target (some (text s)) target = some (if s == "" then target else s)
call_target (some v) target = if is_truthy v then none else some target

-- what a resolver gives, `none` where it raises
abbrev pub Resolver : Type 0 → Type 0 → Type 0 → Type 0
Resolver W A B = A → W → Option (Option B) × W

-- What a protected callable is made with, and what it calls outside the repository.
pub record Protection (F D Key PrivateKey W : Type 0) : Type 0 where
  pub platform : Platform F Key
  pub signing : Signing PrivateKey
  pub action : Action
  pub target : String
  pub tier : Option VerificationTier
  pub on_violation : String
  pub passport : AgentPassport F Key PrivateKey
  pub claim_resolver : Option (Resolver W String (Claim D))
  pub observation_resolver : Option (Resolver W (Claim D) Observation)

-- What a call works on: the store and the engine, where they were given, and the caller's state.
pub record Surroundings (F W : Type 0) : Type 0 where
  pub revocation_store : Option RevocationStore
  pub trust_engine : Option (TrustEngine F)
  pub world : W

-- The readings of one call.
pub record Instant : Type 0 where
  pub created_at : ℕ
  pub hex : String
  pub signed_at : ℕ
  pub verified_at : ℕ
  pub store_made_at : ℕ
  pub readings : Readings

-- The exceptions of a call before the callable runs.
pub data ShieldError (F : Type 0) : Type 0 where
  invalid_on_violation invalid_envelope no_private_key non_finite_payload amount_too_large :
      ShieldError F
  resolver_raised : ShieldError F
  custos_violation : VerificationResult F → ShieldError F

-- How _verify ends: with a result, with _BLOCKED, or by an exception.
pub data Verified (F : Type 0) : Type 0 where
  cleared : VerificationResult F → Verified F
  blocked : Verified F
  refused : ShieldError F → Verified F

abbrev pub store_or_new : Option RevocationStore → ℕ → RevocationStore
store_or_new none now = new_store now
store_or_new (some s) now = s

abbrev pub engine_or_new : {F : Type 0} → Option (TrustEngine F) → TrustEngine F
engine_or_new none = record { history = []; ledger = [] }
engine_or_new (some t) = t

-- what is left of an object that a call used: a fresh one is dropped
abbrev pub if_given : {A : Type 0} → Option A → A → Option A
if_given none x = none
if_given (some y) x = some x

-- A call's target with its signed envelope, or the exception that the making of it raises.
pub data Prepared (F : Type 0) : Type 0 where
  prepared : String → CustosEnvelope F → Prepared F
  unprepared : ShieldError F → Prepared F

-- what the resolvers gave
pub data Resolution (D : Type 0) : Type 0 where
  resolution : Option (Claim D) → Option Observation → Resolution D
  resolver_error : Resolution D

-- what the observation resolver gave for a claim
abbrev pub resolution_of : {D : Type 0} → Claim D → Option (Option Observation) → Resolution D
resolution_of c none = resolver_error
resolution_of c (some o) = resolution (some c) o

-- _VALID_ON_VIOLATION
abbrev pub valid_on_violation : List String
valid_on_violation = "raise" ∷ "log" ∷ "silent" ∷ []

-- How a protected call ends: the callable ran, and returned a value or raised; None; or an exception.
pub data Called (F R : Type 0) : Type 0 where
  ran : Option R → Called F R
  skipped : Called F R
  stopped : ShieldError F → Called F R
