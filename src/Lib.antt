-- ===== src/Lib.antt =====
-- Custos checks what an autonomous agent asks for before money moves. An agent's request is a signed
-- envelope; `verify_intent` takes it through an ordered pipeline of checks over two shared objects, the
-- revocation store (kill switch and replay cache) and the trust engine (history, score and the ledger of
-- the rolling day), and answers with a result. The gateway's server looks up the agent's key, the claim
-- and an observation of the market, calls `verify_intent` on its own store and engine, signs a record of
-- either verdict and forwards an allowed intent. The shield runs a callable behind the same verification,
-- and the observer wraps callables to record their calls.
--
-- The files and the code they are about (paths from the repository's root):
--   Errors                custos_protocol/errors.py: codes, values, statuses
--   Models                custos_protocol/models.py: Policy (boundaries, delegation, identity), Message
--                         (intent, proof, envelope), Asset (claim, observation), Outcome
--   Text, Dict, Number    what the code uses of `str`, `dict`, `float` and `Decimal`
--   Boundaries            custos_protocol/boundaries.py: check_boundaries and _numeric; Admitted and Within
--                         on them
--   Delegation            custos_protocol/delegation.py: check_delegation
--   Drift                 custos_protocol/drift.py: check_asset_truth
--   Trust                 custos_protocol/trust.py: TrustEngine; Ledger and Reserve on reservations, Score
--                         on the score
--   Revocation            custos_protocol/revocation.py: RevocationStore; KillSwitch and Nonces
--   Canonical             custos_protocol/canonical.py, and verify_signature and hmac_verify of crypto.py
--   Pipeline              custos_protocol/verification.py: Context (arguments, state, the monad), Admit
--                         (steps 1 to 4), Stages (steps 5 to 11), Verify (verify_intent)
--   Verification          theorems about verify_intent: Hoare, Frames and Kept carry facts through the
--                         stages; Bounded, Cache, Coded, Learn, Permanent, Replay, Sound and
--                         Unauthenticated apply them
--   Passport, Envelope    AgentPassport.create of custos_protocol/passport.py, and select_tier,
--                         create_envelope and sign_envelope of custos_protocol/envelope.py
--   Attestation           custos_protocol/attestation.py
--   Claims                claims/registry.py: the lookups and update_claim
--   Oracle                oracle/cache.py and oracle/tenors.py; Feed and Treasury for oracle/treasury.py,
--                         Newest, Requests and Provenance on them
--   Gateway               gateway/keys.py, gateway/attestations.py, gateway/auth.py; for
--                         gateway/server.py: Site (what the process holds), Intent and its Route (the intent
--                         route, with gateway/proxy.py), Admin and Sync (the administrator's routes), Serve (the
--                         public routes, and `handle` for any request); Frames and Kept on what a step
--                         keeps; Allowed, Barred, Revoked, Denied, Bound and Reachable
--   Shield                custos_protocol/shield.py: Verify (_verify and the wrapper of protect); Gate
--                         and Unresolved on them
--   Observe               custos_protocol/observe.py: ObservationStore; Wrapper for _make_wrapper
--   Tests                 runs on concrete data, and each theorem with hypotheses at concrete arguments
--
-- How the code is modelled:
--   * A method takes the object's state and returns the new one. It takes the lock once, so a run by many
--     threads is a sequence of calls. A reading of a clock and a random token are arguments (`Readings`
--     for `verify_intent`), one for each place where the code reads them.
--   * A stage of `verify_intent` takes a `Session` (the shared state, the ledger token, `checks`) and goes
--     on with a value or leaves by a `Failure` or an exception; the session comes back either way, as in
--     the code, where effects before an early return or a raise stay. `fail_authenticated` and `succeed`
--     then close the call; an exception leaves it as it is (`raised`).
--   * A datetime is a number of microseconds from datetime.min, a date a number of days. Where the
--     code subtracts a timedelta, the model adds it on the other side of the comparison. The end of a
--     suspension is checked against datetime's range, other sums of a datetime and a timedelta are not.
--   * Floats are a type with the operations the code calls (`Float`), and no law; a theorem that needs laws
--     takes `FloatLaws`, which hold for IEEE 754 doubles with NaN. `sum` is one of the operations, since its
--     rounding depends on Python's version, and `fits` says for which integers float() raises no
--     OverflowError; a comparison of an int with a float converts the int. `Fixed` is an instance that
--     runs. Division of ints is that of their floats.
--   * `str.upper` is exact on ASCII. The number or name that an f-string puts into a detail is left out.
--   * pydantic's dump, json.dumps, base64, Ed25519, HMAC-SHA256, the decoding of keys and hmac.compare_digest
--     are fields of `Platform`, `Signing` and `RecordPlatform` or arguments. A theorem that relies on what
--     they document takes it as a hypothesis.
--   * The server is one state (`Gateway`), and a request one step of it (`handle`). While a request awaits
--     the oracle others may run; the model puts their effect before or after it. An exception that no
--     handler catches is an answer (`crashed`).
--   * The network is a state that the client's functions thread; the caller's code in the shield and the
--     observer is a function on a state of the caller's. A call of the client is one request of the
--     model, whatever redirects the client follows in it.
--   * Loops run over lists and are structural recursion: no fuel, every function is total.
--
-- Not modelled: FastAPI's parsing and rendering, the demo page and logging; gateway/config.py (the
-- environment) and gateway/admin_cli.py and custos_protocol/cli.py (I/O); the decorators of observe.py
-- and shield.py that set attributes by introspection, and their asynchronous wrappers, which are the
-- synchronous ones with an await; key and passport files, the seeding of the claim registry from a file;
-- the conformance and demo scripts.
mod Prelude
pub mod Text
pub mod Dict
pub mod Number
pub mod Errors
pub mod Models
pub mod Boundaries
pub mod Delegation
pub mod Drift
pub mod Trust
pub mod Revocation
pub mod Shield
pub mod Canonical
pub mod Claims
pub mod Pipeline
pub mod Oracle
pub mod Gateway
pub mod Observe
pub mod Passport
pub mod Envelope
pub mod Attestation
pub mod Verification
mod Tests
