-- ===== src/Verification/Replay.antt =====
-- A nonce lets one call of `verify_intent` pass.
use asset_embedding_protocol.Prelude.{
  ℕ, suc, ◌+◌, ◌<◌, String, ◌≡◌, refl, sym, ap, ◌∙◌, subst, inl, inr, true, false, List, [], ◌∷◌,
  arith, nat_eq, string_eq, Bool-cases, length, All,
}
use native.Mathlib.Nat.{add-zero}
use asset_embedding_protocol.Number.{Float, Decimal}
use asset_embedding_protocol.Canonical.{Platform}
use asset_embedding_protocol.Revocation.{default_nonce_ttl}
use asset_embedding_protocol.Revocation.Nonces.{
  Holds, accepted-Holds, held-refused, max_nonces-check_nonce,
}
use asset_embedding_protocol.Verification.Unauthenticated.{state_of, has_passed}
use asset_embedding_protocol.Pipeline.{Arguments, Readings, State, verify_intent}
use asset_embedding_protocol.Verification.Cache.{verify_intent-Guarded, verify_intent-Consumed}

-- One call of `verify_intent`.
pub record Call (F D Key : Type 0) : Type 0 where
  pub arguments : Arguments F D Key
  pub readings : Readings

module _ {F D Key : Type 0} ⦃f : Float F⦄ ⦃d : Decimal D F⦄ (lib : Platform F Key) where
  -- the state after a run of calls, by whomever and in whatever order they take the lock
  unfoldable pub verify_all : List (Call F D Key) → State F → State F
  verify_all [] st = st
  verify_all (c ∷ cs) st = verify_all cs (state_of (verify_intent lib c.arguments c.readings st))

  verify_all-Holds :
      (held : String) (t k : ℕ) (cs : List (Call F D Key)) (st : State F)
      → All (λ c. c.readings.nonce_cutoff_at < t + default_nonce_ttl) cs
      → k + length cs < st.store.max_nonces
      → Holds held t k st.store.nonces
      → Holds held t (k + length cs) (verify_all cs st).store.nonces
  unfolding verify_all
  verify_all-Holds held t k [] st early room h = rw add-zero h
  verify_all-Holds held t k (c ∷ cs) st early room h =
      let (h', same) =
        verify_intent-Guarded lib c.arguments c.readings held t k st.store.max_nonces (omega arith)
          st early.0 (h, refl) in
      let e : suc k + length cs ≡ k + length (c ∷ cs) = omega arith in
      subst (λ n. Holds held t n (verify_all (c ∷ cs) st).store.nonces) e
        (verify_all-Holds held t (suc k) cs (state_of (verify_intent lib c.arguments c.readings st))
          early.1 (omega (arith, same)) h')

  -- If a call passes, no later call with the same nonce passes, whatever other calls come in between,
  -- as long as these are fewer than the capacity of the nonce cache, and all of them and the later call
  -- read the monotonic clock less than a day after the nonce was stored.
  pub replay_never_passes :
      (first again : Call F D Key) (between : List (Call F D Key)) (st : State F)
      → has_passed (verify_intent lib first.arguments first.readings st) ≡ true
      → again.arguments.envelope.entropy ≡ first.arguments.envelope.entropy
      → All
          (λ c. c.readings.nonce_cutoff_at < first.readings.nonce_stored_at + default_nonce_ttl)
          between
      → again.readings.nonce_cutoff_at < first.readings.nonce_stored_at + default_nonce_ttl
      → length between < st.store.max_nonces
      → has_passed (
          verify_intent lib again.arguments again.readings
            (verify_all between (state_of (verify_intent lib first.arguments first.readings st))))
        ≡ false
  replay_never_passes first again between st ok same early soon room =
      let (new, after) = verify_intent-Consumed lib first.arguments first.readings st ok in
      let nonce = first.arguments.envelope.entropy in
      let t = first.readings.nonce_stored_at in
      let st' = state_of (verify_intent lib first.arguments first.readings st) in
      let cached =
        accepted-Holds nonce default_nonce_ttl first.readings.nonce_cutoff_at t st.store
          (omega arith) new in
      let bound =
        max_nonces-check_nonce nonce default_nonce_ttl first.readings.nonce_cutoff_at t st.store in
      let held : Holds nonce t 0 st'.store.nonces =
        subst (Holds nonce t 0) (sym (ap (λ c. c.0) after)) cached in
      let cap : st'.store.max_nonces ≡ st.store.max_nonces = ap (λ c. c.1) after ∙ bound in
      let later = verify_all-Holds nonce t 0 between st' early (omega (arith, cap)) held in
      elim (Bool-cases
        (has_passed (verify_intent lib again.arguments again.readings (verify_all between st')))) [
          | inl passed ↦
              let (taken, _) =
                verify_intent-Consumed lib again.arguments again.readings (verify_all between st')
                  passed in
              let refused =
                held-refused nonce t (0 + length between) default_nonce_ttl
                  again.readings.nonce_cutoff_at again.readings.nonce_stored_at
                  (verify_all between st').store soon later in
              absurd (ground (arith, same, taken, refused))
          | inr failed ↦ failed
        ]
