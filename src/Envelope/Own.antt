-- ===== src/Envelope/Own.antt =====
-- An agent with a passport of its own is authorised by it.
use asset_embedding_protocol.Prelude.{
  ℕ, ◌≡◌, refl, some, none, List, String, ◌≤◌, ◌+◌, ◌*◌, sym, ap, ◌∙◌, subst, true, Option, [], ◌∷◌,
  arith, nat_eq, string_eq, subset_refl,
}
use asset_embedding_protocol.Number.{Float, FloatLaws}
use asset_embedding_protocol.Dict.{Dict}
use asset_embedding_protocol.Models.{
  Boundaries, Action, Value, VerificationTier, CustosEnvelope, monetary_limit_valid, second,
  Principal, AgentIdentity,
}
use asset_embedding_protocol.Delegation.{
  containment_violation, numeric_limit_contained, list_contained, geo_contained, geo_set,
  window_contained, check_delegation, DelegationConfig,
}
use asset_embedding_protocol.Delegation.Chain.{check_delegation-IsAuthorised_iff, IsAuthorised}
use asset_embedding_protocol.Passport.{
  PassportArguments, AgentPassport, create, own_hop, boundaries_of, identity_of,
}
use asset_embedding_protocol.Envelope.{create_envelope, draft}
use asset_embedding_protocol.Text.{Codes, codes_eq}

list_contained_refl : (xs : List String) → list_contained xs xs ≡ true
unfolding list_contained
list_contained_refl xs = ground (arith, subset_refl xs)

geo_contained_refl : (g : Option (List Codes)) → geo_contained g g ≡ true
unfolding geo_contained
geo_contained_refl none = refl
geo_contained_refl (some g) = subset_refl g

module _ {F : Type 0} ⦃f : Float F⦄ (laws : FloatLaws f) where
  numeric_limit_contained_refl :
      (x : F) → f.le f.nought x ≡ true → numeric_limit_contained x x ≡ true
  unfolding numeric_limit_contained
  numeric_limit_contained_refl x h =
      ground (arith, laws.le_of_nonnegative x, laws.lt_of_nonnegative x)

  -- A policy whose limits are valid and that has no time window is contained in itself.
  containment_violation_refl :
      (b : Boundaries F)
      → monetary_limit_valid b.monetary_limit ≡ true
      → b.time_window ≡ none
      → containment_violation b b ≡ none
  unfolding containment_violation monetary_limit_valid window_contained
  containment_violation_refl b valid w = ground (
    arith,
    list_contained_refl b.allowed_actions,
    list_contained_refl b.asset_classes,
    subset_refl b.denied_actions,
    numeric_limit_contained_refl b.monetary_limit.per_transaction,
    numeric_limit_contained_refl b.monetary_limit.per_day,
    geo_contained_refl (geo_set b.geo_restriction),
  )

  own-IsAuthorised :
      (p : PassportArguments F) (hex : String) (made : ℕ) (e : CustosEnvelope F)
      (config : DelegationConfig) (now : ℕ)
      → monetary_limit_valid (boundaries_of p).monetary_limit ≡ true
      → e.principal.id ≡ (own_hop p hex made).from_id
      → e.agent.id ≡ (own_hop p hex made).to_id
      → e.boundaries ≡ boundaries_of p
      → 1 ≤ config.max_delegation_depth
      → made ≤ now + config.clock_skew_seconds * second
      → IsAuthorised e config now (own_hop p hex made ∷ [])
  unfolding own_hop boundaries_of
  own-IsAuthorised p hex made e config now valid from to own depth grace = record {
    connects = (sym from, sym to);
    depth = omega arith;
    timely = ((λ t never. absurd (ground arith), grace), tt);
    narrows =
        subst (λ b. containment_violation b (boundaries_of p) ≡ none) (sym own)
          (containment_violation_refl (boundaries_of p) valid refl);
  }

  create_made :
      {Key PrivateKey : Type 0} (p : PassportArguments F) (hex : String) (made : ℕ)
      (public_key : Key) (private_key : PrivateKey) (passport : AgentPassport F Key PrivateKey)
      → create p hex made public_key private_key ≡ some passport
      → (monetary_limit_valid (boundaries_of p).monetary_limit ≡ true)
        × (passport.principal.id ≡ (own_hop p hex made).from_id)
        × (passport.agent.id ≡ (own_hop p hex made).to_id)
        × (passport.boundaries ≡ boundaries_of p)
        × (passport.principal.delegation_chain ≡ own_hop p hex made ∷ [])
  unfolding create own_hop identity_of
  create_made p hex made public_key private_key passport created = ground arith

  create_envelope_made :
      {Key PrivateKey : Type 0} (passport : AgentPassport F Key PrivateKey) (action : Action)
      (target : String) (parameters : Dict (Value F)) (tier : Option VerificationTier)
      (ttl issued : ℕ) (nonce : String) (e : CustosEnvelope F)
      → create_envelope passport action target parameters tier ttl issued nonce ≡ some e
      → (e.principal ≡ passport.principal)
        × (e.agent ≡ passport.agent)
        × (e.boundaries ≡ passport.boundaries)
  unfolding create_envelope draft
  create_envelope_made passport action target parameters tier ttl issued nonce e drafted =
      ground arith

  -- If `create` makes a passport and `create_envelope` an envelope from it, the delegation check accepts
  -- the envelope, at a depth of at least one, from the grace before the passport was made on. The floats
  -- obey `FloatLaws`.
  pub create_envelope-check_delegation :
      {Key PrivateKey : Type 0} (p : PassportArguments F) (hex : String) (made : ℕ)
      (public_key : Key) (private_key : PrivateKey) (passport : AgentPassport F Key PrivateKey)
      (action : Action) (target : String) (parameters : Dict (Value F))
      (tier : Option VerificationTier) (ttl issued : ℕ) (nonce : String) (e : CustosEnvelope F)
      (config : DelegationConfig) (now : ℕ)
      → create p hex made public_key private_key ≡ some passport
      → create_envelope passport action target parameters tier ttl issued nonce ≡ some e
      → 1 ≤ config.max_delegation_depth
      → made ≤ now + config.clock_skew_seconds * second
      → check_delegation e config now ≡ none
  create_envelope-check_delegation p hex made public_key private_key passport action target
        parameters tier ttl issued nonce e config now created drafted depth grace =
      let a = create_made p hex made public_key private_key passport created in
      let d =
        create_envelope_made passport action target parameters tier ttl issued nonce e drafted in
      (check_delegation-IsAuthorised_iff e config now).1 (
        subst (IsAuthorised e config now)
          (sym (ap (λ (q : Principal F). q.delegation_chain) d.0 ∙ a.4))
          (own-IsAuthorised p hex made e config now a.0 (ap (λ (q : Principal F). q.id) d.0 ∙ a.1)
            (ap (λ (i : AgentIdentity). i.id) d.1 ∙ a.2) (d.2 ∙ a.3) depth grace))
