-- ===== src/Verification/Cache.antt =====
-- What a call of `verify_intent` does to the cache of nonces.
use asset_embedding_protocol.Prelude.{
  ℕ, suc, ◌+◌, ◌<◌, String, ◌≡◌, refl, sym, ap, ◌∙◌, subst, Bool, true, arith, nat_eq, string_eq,
}
use asset_embedding_protocol.Number.{Float, Decimal}
use asset_embedding_protocol.Dict.{Dict}
use asset_embedding_protocol.Canonical.{Platform}
use asset_embedding_protocol.Revocation.{check_nonce, default_nonce_ttl, RevocationStore}
use asset_embedding_protocol.Revocation.Nonces.{Holds, check_nonce-Holds, max_nonces-check_nonce}
use asset_embedding_protocol.Verification.Hoare.{
  Hoare-intro, Hoare, Hoare-bind, Hoare-view, Hoare-both, Post,
}
use asset_embedding_protocol.Verification.Frames.{
  cache, state-pass, state-nonce_stage, cache-reserve_stage, cache-judge_stage, cache-fresh_stage,
  cache-agent_stage, cache-issuer_stage, state-asset_stage, state-attestation_stage,
  state-delegation_stage, state-trust_stage, amount_same,
}
use asset_embedding_protocol.Verification.Kept.{Kept, later_kept}
use asset_embedding_protocol.Verification.Unauthenticated.{state_of, has_passed}
use asset_embedding_protocol.Pipeline.{
  finish, Arguments, Readings, State, Session, Exit, Progress, go, leave, stop, escape, Success,
  replay_stage, boundaries_stage, stages, later_stages, resume, verify_intent, conclude,
  authenticated, Admission, admitted, rejected, non_finite, admission, Checks,
}

module _ {F D Key : Type 0} ⦃f : Float F⦄ ⦃d : Decimal D F⦄ (lib : Platform F Key)
    (a : Arguments F D Key) (r : Readings) where
  abbrev pub cache_of : State F → Dict ℕ × ℕ
  cache_of t = (t.store.nonces, t.store.max_nonces)

  module _ (P : Dict ℕ × ℕ → Type 0) {Q : Exit F → Session F → Type 0}
      (out : (x : Exit F) (s : Session F) → P (cache s) → Q x s) where
    cache_kept : Kept lib a r (λ s. P (cache s)) Q
    cache_kept = record {
      pass_kept = λ step. Hoare-view cache P out (λ s. ap cache_of (state-pass step s));
      fresh = Hoare-view cache P out (cache-fresh_stage a r);
      agent = Hoare-view cache P out (cache-agent_stage a r);
      issuer = λ c. Hoare-view cache P out (λ s. cache-issuer_stage a r s c);
      asset = Hoare-view cache P out (λ s. ap cache_of (state-asset_stage a r s));
      attestation = Hoare-view cache P out (λ s. ap cache_of (state-attestation_stage a r s));
      delegation = Hoare-view cache P out (λ s. ap cache_of (state-delegation_stage a r s));
      trust = Hoare-view cache P out (λ s. ap cache_of (state-trust_stage a r s));
    }

    boundaries_cache : Hoare (λ s. P (cache s)) (boundaries_stage a r) (λ _ s. P (cache s)) Q
    unfolding boundaries_stage
    boundaries_cache =
        Hoare-bind _ _ (Hoare-view cache P out (λ s. ap cache (amount_same a r s))) (λ amount.
          Hoare-bind _ _ (Hoare-view cache P out (λ s. cache-reserve_stage a r s amount))
            (λ before. Hoare-view cache P out (λ s. cache-judge_stage a r s before)))

    pub later_cache : Hoare (λ s. P (cache s)) (later_stages lib a r) (λ _ s. P (cache s)) Q
    later_cache = later_kept lib a r cache_kept boundaries_cache

  -- the check of the nonce that a call makes on a store
  abbrev pub checked : RevocationStore → Bool × RevocationStore
  checked = check_nonce a.envelope.entropy default_nonce_ttl r.nonce_cutoff_at r.nonce_stored_at

  pub cache-replay_stage :
      (s : Session F)
      → cache (replay_stage a r s).1
        ≡ ((checked s.state.store).1.nonces, (checked s.state.store).1.max_nonces)
  unfolding replay_stage
  cache-replay_stage s = ground arith

  pub replay_stage_new :
      (s : Session F) {x : Unit {0}}
      → (replay_stage a r s).0 ≡ go x
      → (checked s.state.store).0 ≡ true
  unfolding replay_stage
  replay_stage_new s h = ground arith

  store-conclude :
      (p : Progress F (Success F)) (s : Session F)
      → (state_of (conclude lib a r p s)).store ≡ s.state.store
  unfolding conclude
  store-conclude (go x) s = refl
  store-conclude (leave (stop x)) s = refl
  store-conclude (leave (escape x)) s = refl

  store-authenticated :
      (c : Checks) (st : State F) → (authenticated lib a r c st).state.store ≡ st.store
  unfolding authenticated
  store-authenticated c st = refl

  pub store-finish :
      (s : Session F) → (state_of (finish lib a r s)).store ≡ (stages lib a r s).1.state.store
  unfolding finish
  store-finish s = let (p, s') = stages lib a r s in store-conclude p s'

  pub conclude-go :
      (p : Progress F (Success F)) (s : Session F)
      → has_passed (conclude lib a r p s) ≡ true
      → (x : Success F) × (p ≡ go x)
  unfolding conclude
  conclude-go (go x) s h = (x, refl)
  conclude-go (leave (stop x)) s h = cc
  conclude-go (leave (escape x)) s h = cc

  pub Post-same :
      (J : Session F → Type 0) (p : Progress F (Success F)) (s : Session F)
      → Post (λ _. J) (λ _. J) p s
      → J s
  Post-same J (go x) s y = y
  Post-same J (leave x) s y = y

  module _ (held : String) (t k cap : ℕ) (room : suc k < cap) where
    -- The cache, of a capacity with room for one more, holds the nonce with so many younger ones.
    abbrev Guarded : ℕ → Dict ℕ × ℕ → Type 0
    Guarded n c = Holds held t n c.0 × (c.1 ≡ cap)

    Guarded-longer : (c : Dict ℕ × ℕ) → Guarded k c → Guarded (suc k) c
    Guarded-longer c (h, e) = (
      record { before = h.before; behind = h.behind; split = h.split; few = omega (arith, h.few) },
      e,
    )

    replay_stage-Guarded :
        (s : Session F)
        → r.nonce_cutoff_at < t + default_nonce_ttl
        → Guarded k (cache s)
        → Guarded (suc k) (cache (replay_stage a r s).1)
    replay_stage-Guarded s early (h, e) = rw cache-replay_stage (
      check_nonce-Holds held t k a.envelope.entropy default_nonce_ttl r.nonce_cutoff_at
          r.nonce_stored_at s.state.store early (omega (arith, e)) h,
      max_nonces-check_nonce a.envelope.entropy default_nonce_ttl r.nonce_cutoff_at
            r.nonce_stored_at s.state.store
          ∙ e,
    )

    stages-Guarded :
        r.nonce_cutoff_at < t + default_nonce_ttl
        → Hoare
            (λ s. Guarded k (cache s))
            (stages lib a r)
            (λ _ s. Guarded (suc k) (cache s))
            (λ _ s. Guarded (suc k) (cache s))
    unfolding stages
    stages-Guarded early =
        Hoare-bind _ _
          (Hoare-view cache (Guarded k) (λ x s. Guarded-longer (cache s))
            (λ s. ap cache_of (state-nonce_stage a r s)))
          (λ _.
            Hoare-bind _ _ (Hoare-both (λ s. replay_stage-Guarded s early))
              (λ _. later_cache (Guarded (suc k)) (λ x s y. y)))

    finish-Guarded :
        (s : Session F)
        → r.nonce_cutoff_at < t + default_nonce_ttl
        → Guarded k (cache s)
        → Guarded (suc k) (cache_of (state_of (finish lib a r s)))
    finish-Guarded s early g =
        subst (λ (x : RevocationStore). Guarded (suc k) (x.nonces, x.max_nonces))
          (sym (store-finish s))
          (Post-same (λ z. Guarded (suc k) (cache z)) (stages lib a r s).0 (stages lib a r s).1
            ((stages-Guarded early).at s g))

    resume-Guarded :
        (x : Admission F) (st : State F)
        → r.nonce_cutoff_at < t + default_nonce_ttl
        → Guarded k (cache_of st)
        → Guarded (suc k) (cache_of (state_of (resume lib a r x st)))
    unfolding resume
    resume-Guarded non_finite st early g = Guarded-longer (cache_of st) g
    resume-Guarded (rejected x c) st early g = Guarded-longer (cache_of st) g
    resume-Guarded (admitted c) st early g =
        finish-Guarded (authenticated lib a r c st) early (rw (store-authenticated c st) g)

    -- A call keeps a nonce that the cache holds.
    pub verify_intent-Guarded :
        (st : State F)
        → r.nonce_cutoff_at < t + default_nonce_ttl
        → Guarded k (cache_of st)
        → Guarded (suc k) (cache_of (state_of (verify_intent lib a r st)))
    unfolding verify_intent
    verify_intent-Guarded st early g = resume-Guarded (admission lib a) st early g

  -- What a pass has done to the cache of the store it was given.
  abbrev Consumed : RevocationStore → Dict ℕ × ℕ → Type 0
  Consumed store c =
      ((checked store).0 ≡ true) × (c ≡ ((checked store).1.nonces, (checked store).1.max_nonces))

  replay_stage-Consumed :
      (store : RevocationStore)
      → Hoare
          (λ s. s.state.store ≡ store)
          (replay_stage a r)
          (λ _ s. Consumed store (cache s))
          (λ _ _. Unit {0})
  replay_stage-Consumed store =
      Hoare-intro
        (λ s e u h.
          subst (λ x. Consumed x (cache (replay_stage a r s).1)) e
            (replay_stage_new s h, cache-replay_stage s))
        (λ _ _ _ _. tt)

  stages-Consumed :
      (store : RevocationStore)
      → Hoare
          (λ s. s.state.store ≡ store)
          (stages lib a r)
          (λ _ s. Consumed store (cache s))
          (λ _ _. Unit {0})
  unfolding stages
  stages-Consumed store =
      Hoare-bind _ _
        (Hoare-intro (λ s e u h. ap (λ (t : State F). t.store) (state-nonce_stage a r s) ∙ e)
          (λ _ _ _ _. tt))
        (λ _.
          Hoare-bind _ _ (replay_stage-Consumed store)
            (λ _. later_cache (Consumed store) (λ _ _ _. tt)))

  pub Post-go :
      (J : Session F → Type 0) (p : Progress F (Success F)) (s : Session F) (x : Success F)
      → p ≡ go x
      → Post (λ _. J) (λ _ _. Unit {0}) p s
      → J s
  Post-go J (go y) s x e h = h
  Post-go J (leave y) s x e h = absurd (ground (arith, e))

  finish-Consumed :
      (s : Session F)
      → has_passed (finish lib a r s) ≡ true
      → Consumed s.state.store (cache_of (state_of (finish lib a r s)))
  finish-Consumed s h =
      let (x, e) = conclude-go (stages lib a r s).0 (stages lib a r s).1 (unfold finish in h) in
      rw store-finish (
        Post-go (λ z. Consumed s.state.store (cache z)) (stages lib a r s).0 (stages lib a r s).1 x
          e ((stages-Consumed s.state.store).at s refl))

  resume-Consumed :
      (x : Admission F) (st : State F)
      → has_passed (resume lib a r x st) ≡ true
      → Consumed st.store (cache_of (state_of (resume lib a r x st)))
  unfolding resume authenticated
  resume-Consumed non_finite st h = cc
  resume-Consumed (rejected x c) st h = absurd (ground arith)
  resume-Consumed (admitted c) st h = finish-Consumed (authenticated lib a r c st) h

  pub verify_intent-Consumed :
      (st : State F)
      → has_passed (verify_intent lib a r st) ≡ true
      → Consumed st.store (cache_of (state_of (verify_intent lib a r st)))
  unfolding verify_intent
  verify_intent-Consumed st h = resume-Consumed (admission lib a) st h
