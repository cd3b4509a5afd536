-- ===== src/Gateway/Allowed.antt =====
-- When POST /v1/intent grants an attestation.
use asset_embedding_protocol.Prelude.{
  String, ◌≡◌, refl, subst, Bool, true, false, Option, none, some, List, [], ◌∷◌, inl, inr,
  Option-cases, Bool-cases, arith, nat_eq, string_eq,
}
use asset_embedding_protocol.Number.{Float, Decimal}
use asset_embedding_protocol.Gateway.Intent.{
  envelope_hash, resolved, tenor_error, oracle_overflow, Resolved,
}
use asset_embedding_protocol.Gateway.Intent.Route.{
  denied, post_intent, judge, with_key, arguments_for,
}
use asset_embedding_protocol.Models.{Reference}
use asset_embedding_protocol.Pipeline.{returned, raised, Outcome, verify_intent}
use asset_embedding_protocol.Attestation.{
  VerdictRecord, allow, block, sign_denial, attach_proof, with_proof,
}
use asset_embedding_protocol.Gateway.Site.{
  Site, Response, rendered, Moment, verdict, Gateway, forwarded, unreachable,
}
use asset_embedding_protocol.Gateway.Intent.{resolved}
use asset_embedding_protocol.Gateway.Intent.Route.{deny, decide, denied, resolve_for}
use asset_embedding_protocol.Models.{CustosEnvelope, Claim, Observation, AssetScores, Reference}
use asset_embedding_protocol.Verification.Unauthenticated.{has_passed}
use asset_embedding_protocol.Gateway.{key_of}
use asset_embedding_protocol.Errors.{CustosErrorCode, tenor_unsupported, invalid_signature}
use asset_embedding_protocol.Verification.Sound.{IsCleared, pass-IsCleared}
use asset_embedding_protocol.Text.{concat}
use asset_embedding_protocol.Gateway.Frames.{resolve_for-oracle}

-- Does an answer carry an attestation?
abbrev pub is_allow : {F : Type 0} → VerdictRecord F → Bool
is_allow (allow r) = true
is_allow (block r) = false

abbrev pub grants : {F D : Type 0} → Response F D → Bool
grants (rendered n (verdict r)) = is_allow r
grants (rendered n (forwarded r status body)) = is_allow r
grants (rendered n (unreachable r code)) = is_allow r
grants r = false

module _ {F D Key PrivateKey S : Type 0} ⦃f : Float F⦄ ⦃d : Decimal D F⦄
    (site : Site F D Key PrivateKey S) where
  -- What a gateway must have found to allow an intent.
  pub record IsAllowed (m : Moment) (e : CustosEnvelope F) (geo : Option String)
      (g : Gateway F D Key S) : Type 0 where
    pub key : Key
    pub claim : Option (Claim D)
    pub observation : Option Observation
    pub bound : key_of e.agent.id g.agent_keys ≡ some key
    pub found : (resolve_for site m e g).0 ≡ resolved claim observation
    pub cleared :
        IsCleared site.platform
          (arguments_for site m e geo key claim observation g)
          m.readings
          g.state

  pub deny-refuses :
      (m : Moment) (digest agent : String) (asset : Option String) (errors : List CustosErrorCode)
      (detail : String) (scores : Option (AssetScores F)) (reference : Option Reference)
      → grants (deny site m digest agent asset errors detail scores reference) ≡ false
  unfolding deny denied sign_denial attach_proof with_proof
  deny-refuses m digest agent asset [] detail scores reference = ground arith
  deny-refuses m digest agent asset (x ∷ errors) detail scores reference = ground arith

  decide-passed :
      (m : Moment) (digest : String) (e : CustosEnvelope F) (x : Outcome F) (g : Gateway F D Key S)
      → grants (decide site m digest e x g).0 ≡ true
      → has_passed x ≡ true
  unfolding decide
  decide-passed m digest e (raised why st) g h = absurd (ground (arith, h))
  decide-passed m digest e (returned x st) g h = elim (Bool-cases x.passed) [
    | inl ok ↦ ok
    | inr bad ↦ absurd (
        ground (
          arith,
          bad,
          h,
          deny-refuses m digest e.agent.id (some e.intent.target) x.errors
              (site.show_detail x.detail) x.scores x.reference,
        ))
  ]

  judge-IsCleared :
      (m : Moment) (digest : String) (e : CustosEnvelope F) (geo : Option String) (key : Key)
      (x : Resolved D) (g : Gateway F D Key S)
      → grants (judge site m digest e geo key x g).0 ≡ true
      → (claim : Option (Claim D)) × (observation : Option Observation) × (x
          ≡ resolved claim observation)
        × IsCleared site.platform
            (arguments_for site m e geo key claim observation g)
            m.readings
            g.state
  unfolding judge
  judge-IsCleared m digest e geo key oracle_overflow g h = absurd (ground (arith, h))
  judge-IsCleared m digest e geo key (tenor_error c) g h = absurd (
      ground (
        arith,
        h,
        deny-refuses m digest e.agent.id (some e.intent.target) (tenor_unsupported ∷ [])
            (concat "Tenor " (concat c.underlying_tenor " has no yield-curve mapping.")) none none,
      ))
  judge-IsCleared m digest e geo key (resolved claim observation) g h =
      let a = arguments_for site m e geo key claim observation g in
      let x = verify_intent site.platform a m.readings g.state in
      let passed = decide-passed m digest e x g h in
      (claim, observation, refl, pass-IsCleared site.platform a m.readings g.state passed)

  with_key-IsAllowed :
      (m : Moment) (digest : String) (e : CustosEnvelope F) (geo : Option String) (key : Option Key)
      (g : Gateway F D Key S)
      → key_of e.agent.id g.agent_keys ≡ key
      → grants (with_key site m digest e geo key g).0 ≡ true
      → IsAllowed m e geo g
  unfolding with_key arguments_for
  with_key-IsAllowed m digest e geo none g k h = absurd (
      ground (
        arith,
        h,
        deny-refuses m digest e.agent.id (some e.intent.target) (invalid_signature ∷ [])
            (concat "No registered key for agent "
              (concat e.agent.id "; signature cannot be verified."))
            none none,
      ))
  with_key-IsAllowed m digest e geo (some key) g k h =
      let (x, g') = resolve_for site m e g in
      let (o, same) = resolve_for-oracle site m e g in
      let (claim, observation, found, cleared) = judge-IsCleared m digest e geo key x g' h in
      record {
        key = key;
        claim = claim;
        observation = observation;
        bound = k;
        found = found;
        cleared =
            subst
              (λ t.
                IsCleared site.platform (arguments_for site m e geo key claim observation t)
                  m.readings t.state)
              same cleared;
      }

  -- The server answers an intent with an attestation, be it alone, with a downstream service's reply or
  -- with word that the service is unreachable, only if the agent has a registered key and the call met
  -- every condition of `IsCleared` under that key, on the server's own revocations, trust and
  -- registries, with the claim and the observation that the server itself looked up.
  pub post_intent-IsAllowed :
      (m : Moment) (e : CustosEnvelope F) (geo : Option String) (g : Gateway F D Key S)
      → grants (post_intent site m e geo g).0 ≡ true
      → IsAllowed m e geo g
  unfolding post_intent
  post_intent-IsAllowed m e geo g h =
      elim (Option-cases (envelope_hash site.platform site.sha256_hex e)) [
        | inl wild ↦ absurd (ground (arith, wild, h))
        | inr (digest, x) ↦
            with_key-IsAllowed m digest e geo (key_of e.agent.id g.agent_keys) g refl
              (ground (arith, x, h))
      ]
