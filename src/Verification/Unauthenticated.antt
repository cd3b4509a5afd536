-- ===== src/Verification/Unauthenticated.antt =====
-- A call whose envelope is not authenticated leaves no trace.
use asset_embedding_protocol.Prelude.{
  ◌≡◌, refl, inl, inr, Bool, true, false, Option, none, some, arith, nat_eq, string_eq,
  Option-cases,
}
use asset_embedding_protocol.Number.{Float, Decimal}
use asset_embedding_protocol.Models.{Proof}
use asset_embedding_protocol.Canonical.{Platform, Bytes, signable_payload}
use asset_embedding_protocol.Pipeline.{
  resume, Arguments, Readings, State, Outcome, returned, raised, verify_intent, admission,
  Admission, admitted, rejected, non_finite, check_signature, signature_ok, Checks,
  VerificationResult,
}

-- the state that a call leaves
abbrev pub state_of : {F : Type 0} → Outcome F → State F
state_of (returned x s) = s
state_of (raised e s) = s

abbrev pub result_of : {F : Type 0} → Outcome F → Option (VerificationResult F)
result_of (returned x s) = some x
result_of (raised e s) = none

abbrev pub has_passed : {F : Type 0} → Outcome F → Bool
has_passed (returned x s) = x.passed
has_passed (raised e s) = false

module _ {F D Key : Type 0} ⦃f : Float F⦄ ⦃d : Decimal D F⦄ (lib : Platform F Key)
    (a : Arguments F D Key) where
  -- the envelope carries a proof whose signature over the canonical payload verifies
  abbrev pub IsAuthentic : Type 0
  IsAuthentic =
      (proof : Proof) × (payload : Bytes) × (a.envelope.proof ≡ some proof)
      × (signable_payload lib a.envelope ≡ some payload)
      × (signature_ok lib a payload proof ≡ true)

  pub admitted-IsAuthentic : {c : Checks} → admission lib a ≡ admitted c → IsAuthentic
  unfolding admission check_signature
  admitted-IsAuthentic {c} h = elim (Option-cases a.envelope.proof) [
    | inl absent ↦ absurd (ground arith)
    | inr (proof, e) ↦ elim (Option-cases (signable_payload lib a.envelope)) [
      | inl wild ↦ absurd (ground arith)
      | inr (payload, p) ↦ (proof, payload, e, p, ground arith)
    ]
  ]

  resume_untouched :
      (r : Readings) (x : Admission F) (st : State F)
      → admission lib a ≡ x
      → ¬ IsAuthentic
      → (state_of (resume lib a r x st) ≡ st) × (has_passed (resume lib a r x st) ≡ false)
  unfolding resume
  resume_untouched r non_finite st e forged = (refl, refl)
  resume_untouched r (rejected x c) st e forged = (refl, refl)
  resume_untouched r (admitted c) st e forged = absurd (forged (admitted-IsAuthentic e))

  -- If an envelope is not authentic, `verify_intent` does not pass it, and leaves the nonce cache, the
  -- revocation records, every history and every ledger exactly as they were.
  pub unauthenticated_untouched :
      (r : Readings) (st : State F)
      → ¬ IsAuthentic
      → (state_of (verify_intent lib a r st) ≡ st) × (has_passed (verify_intent lib a r st) ≡ false)
  unfolding verify_intent
  unauthenticated_untouched r st forged = resume_untouched r (admission lib a) st refl forged
