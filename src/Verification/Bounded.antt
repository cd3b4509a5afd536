-- ===== src/Verification/Bounded.antt =====
-- The size of the nonce cache over a call of `verify_intent`.
use asset_embedding_protocol.Prelude.{ℕ, ◌≤◌, sym, subst, length, nat_eq, string_eq, ap}
use asset_embedding_protocol.Number.{Float, Decimal}
use asset_embedding_protocol.Dict.{Dict}
use asset_embedding_protocol.Verification.Frames.{cache}
use asset_embedding_protocol.Revocation.Nonces.{check_nonce_bounded}
use asset_embedding_protocol.Canonical.{Platform}
use asset_embedding_protocol.Pipeline.{
  admitted, rejected, non_finite, Arguments, Readings, stages, Session, verify_intent, resume,
  State, authenticated, replay_stage, Admission, admission, finish,
}
use asset_embedding_protocol.Revocation.{RevocationStore, default_nonce_ttl}
use asset_embedding_protocol.Verification.Hoare.{Hoare, Hoare-bind, Hoare-view, Hoare-both}
use asset_embedding_protocol.Verification.Unauthenticated.{state_of}
use asset_embedding_protocol.Verification.Cache.{
  store-finish, cache-replay_stage, Post-same, cache_of, later_cache,
}
use asset_embedding_protocol.Verification.Frames.{state-nonce_stage}

-- The cache holds no more nonces than it may.
abbrev pub Bounded : RevocationStore → Type 0
Bounded s = length s.nonces ≤ s.max_nonces

module _ {F D Key : Type 0} ⦃f : Float F⦄ ⦃d : Decimal D F⦄ (lib : Platform F Key)
    (a : Arguments F D Key) (r : Readings) where
  abbrev Within : Dict ℕ × ℕ → Type 0
  Within c = length c.0 ≤ c.1

  replay_stage-Within : (s : Session F) → Within (cache s) → Within (cache (replay_stage a r s).1)
  replay_stage-Within s h = rw cache-replay_stage (
      check_nonce_bounded a.envelope.entropy default_nonce_ttl r.nonce_cutoff_at r.nonce_stored_at
        s.state.store h)

  stages-Within :
      Hoare
        (λ s. Within (cache s))
        (stages lib a r)
        (λ _ s. Within (cache s))
        (λ _ s. Within (cache s))
  unfolding stages
  stages-Within =
      Hoare-bind _ _
        (Hoare-view cache Within (λ x s h. h)
          (λ s. ap (cache_of lib a r) (state-nonce_stage a r s)))
        (λ _.
          Hoare-bind _ _ (Hoare-both replay_stage-Within)
            (λ _. later_cache lib a r Within (λ x s y. y)))

  finish-Bounded :
      (s : Session F) → Bounded s.state.store → Bounded (state_of (finish lib a r s)).store
  finish-Bounded s h = subst Bounded (sym (store-finish lib a r s)) (
      Post-same lib a r (λ z. Within (cache z)) (stages lib a r s).0 (stages lib a r s).1
        (stages-Within.at s h))

  resume-Bounded :
      (x : Admission F) (st : State F)
      → Bounded st.store
      → Bounded (state_of (resume lib a r x st)).store
  unfolding resume authenticated
  resume-Bounded non_finite st h = h
  resume-Bounded (rejected x c) st h = h
  resume-Bounded (admitted c) st h = finish-Bounded (authenticated lib a r c st) h

  pub verify_intent-Bounded :
      (st : State F) → Bounded st.store → Bounded (state_of (verify_intent lib a r st)).store
  unfolding verify_intent
  verify_intent-Bounded st h = resume-Bounded (admission lib a) st h
