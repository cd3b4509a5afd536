-- ===== src/Gateway/Denied.antt =====
-- The errors that POST /v1/intent answers with.
use asset_embedding_protocol.Prelude.{
  ℕ, String, ◌≡◌, refl, true, Option, none, some, List, [], ◌∷◌, inl, inr, Option-cases, Bool-cases,
  arith, nat_eq, string_eq, is_nonempty, ◌↔◌, ◌+◌, ◌*◌,
}
use asset_embedding_protocol.Number.{Float, Decimal}
use asset_embedding_protocol.Dict
use asset_embedding_protocol.Gateway.Intent.{envelope_hash, resolved, tenor_error, oracle_overflow}
use asset_embedding_protocol.Gateway.Site.{index_error}
use asset_embedding_protocol.Pipeline.{returned, raised, Outcome, VerificationResult, verify_intent}
use asset_embedding_protocol.Gateway.Intent.{
  answered, connection_error, uncaught, Forwarded, downstream_of, Resolved, tenor_error, resolved,
}
use asset_embedding_protocol.Gateway.Intent.Route.{
  denied, relayed, deliver, deny, decide, with_key, post_intent, judge, resolve_for, arguments_for,
}
use asset_embedding_protocol.Gateway.Site.{
  Response, Site, rendered, verdict, Moment, crashed, Gateway,
}
use asset_embedding_protocol.Errors.{
  CustosErrorCode, http_status_for, invalid_signature, tenor_unsupported,
}
use asset_embedding_protocol.Attestation.{
  with_proof, sign_denial, AllowRecord, Denial, block, attach_proof, allow, new_record,
  sign_attestation,
}
use asset_embedding_protocol.Models.{
  CustosEnvelope, Proof, AssetScores, Reference, action_value, second,
}
use asset_embedding_protocol.Canonical.{Bytes}
use asset_embedding_protocol.Text.{concat}
use asset_embedding_protocol.Verification.Unauthenticated.{result_of}
use asset_embedding_protocol.Boundaries.{numeric}
use asset_embedding_protocol.Gateway.Intent.Route.{attested_amount}
use asset_embedding_protocol.Pipeline.{non_finite_payload, amount_too_large}
use asset_embedding_protocol.Envelope.{whole_seconds}
use asset_embedding_protocol.Gateway.{key_of}
use asset_embedding_protocol.Verification.Coded.{passed-errors_iff}

-- There is a first error, and the status is its own.
abbrev pub IsFirst : List CustosErrorCode → ℕ → Type 0
IsFirst errors status =
    (code : CustosErrorCode) × (codes' : List CustosErrorCode) × (errors ≡ code ∷ codes')
    × (status ≡ http_status_for code)

-- The answer is no IndexError, and a denial has the status of its first error.
abbrev pub IsAnswered : {F D : Type 0} → Response F D → Type 0
IsAnswered (rendered n (verdict (block x))) = IsFirst x.errors n
IsAnswered (crashed index_error) = ¬ Unit {0}
IsAnswered r = Unit

module _ {F D Key PrivateKey S : Type 0} ⦃f : Float F⦄ ⦃d : Decimal D F⦄
    (site : Site F D Key PrivateKey S) where
  denied-IsAnswered :
      (code : CustosErrorCode) (codes' : List CustosErrorCode) (b : Denial F) (bytes : Option Bytes)
      (proof : Bytes → Proof)
      → b.errors ≡ code ∷ codes'
      → IsAnswered (
          denied site (code ∷ codes') (elim bytes [
            | none ↦ none
            | some payload ↦ some (with_proof (proof payload) (block b))
          ]))
  unfolding denied with_proof
  denied-IsAnswered code codes' b none proof e = tt
  denied-IsAnswered code codes' b (some payload) proof e = (code, codes', e, refl)

  deny-IsAnswered :
      (m : Moment) (digest agent : String) (asset : Option String) (errors : List CustosErrorCode)
      (detail : String) (scores : Option (AssetScores F)) (reference : Option Reference)
      → is_nonempty errors ≡ true
      → IsAnswered (deny site m digest agent asset errors detail scores reference)
  unfolding deny sign_denial attach_proof
  deny-IsAnswered m digest agent asset [] detail scores reference h = absurd (ground (arith, h))
  deny-IsAnswered m digest agent asset (code ∷ codes') detail scores reference h =
      denied-IsAnswered code codes'
        (record {
          base =
              new_record site.platform site.records site.signer_key digest agent asset m.signed_at;
          denial_id = concat "den_" m.hex;
          errors = code ∷ codes';
          detail = detail;
          scores = scores;
          reference = reference;
        })
        _ _ refl

  relayed-IsAnswered : (r : AllowRecord F) (x : Forwarded F) → IsAnswered (relayed site (allow r) x)
  unfolding relayed
  relayed-IsAnswered r (answered status body) = tt
  relayed-IsAnswered r connection_error = tt
  relayed-IsAnswered r uncaught = tt

  deliver-IsAnswered :
      (e : CustosEnvelope F) (r : AllowRecord F) (bytes : Option Bytes) (proof : Bytes → Proof)
      (g : Gateway F D Key S)
      → IsAnswered
          (deliver site e
            (elim bytes [
              | none ↦ none
              | some payload ↦ some (with_proof (proof payload) (allow r))
            ])
            g).0
  unfolding deliver with_proof
  deliver-IsAnswered e r none proof g = tt
  deliver-IsAnswered e r (some payload) proof g =
      elim (Option-cases (downstream_of (Dict.get "downstream" e.intent.parameters))) [
        | inl absent ↦ rw (absent, deliver) tt
        | inr (url, given) ↦ rw (given, deliver) (relayed-IsAnswered _ _)
      ]

  decide-IsAnswered :
      (m : Moment) (digest : String) (e : CustosEnvelope F) (x : Outcome F) (g : Gateway F D Key S)
      → ((y : VerificationResult F) → result_of x ≡ some y → (y.passed ≡ true) ↔ (y.errors ≡ []))
      → IsAnswered (decide site m digest e x g).0
  unfolding decide sign_attestation attach_proof
  decide-IsAnswered m digest e (raised non_finite_payload st) g h = tt
  decide-IsAnswered m digest e (raised amount_too_large st) g h = tt
  decide-IsAnswered m digest e (returned y st) g h = elim (Bool-cases y.passed) [
    | inl ok ↦
        let r : AllowRecord F = record {
          base =
              new_record site.platform site.records site.signer_key digest e.agent.id
                (some e.intent.target) m.signed_at;
          attestation_id = concat "att_" m.hex;
          action = action_value e.intent.action;
          amount = attested_amount (numeric (Dict.get "amount" e.intent.parameters));
          tier_used = y.tier_used;
          scores = y.scores;
          reference = y.reference;
          expires_at = whole_seconds m.signed_at + site.attestation_ttl_seconds * second;
        } in
        rw (ok, decide) (deliver-IsAnswered e r _ _ _)
    | inr bad ↦
        let named : is_nonempty y.errors ≡ true = ground (arith, bad, (h y refl).1) in
        rw (bad, decide)
          (deny-IsAnswered m digest e.agent.id (some e.intent.target) y.errors
            (site.show_detail y.detail) y.scores y.reference named)
  ]

  judge-IsAnswered :
      (m : Moment) (digest : String) (e : CustosEnvelope F) (geo : Option String) (key : Key)
      (x : Resolved D) (g : Gateway F D Key S)
      → IsAnswered (judge site m digest e geo key x g).0
  unfolding judge
  judge-IsAnswered m digest e geo key oracle_overflow g = tt
  judge-IsAnswered m digest e geo key (tenor_error c) g =
      deny-IsAnswered m digest e.agent.id (some e.intent.target) (tenor_unsupported ∷ [])
        (concat "Tenor " (concat c.underlying_tenor " has no yield-curve mapping.")) none none refl
  judge-IsAnswered m digest e geo key (resolved claim observation) g =
      let a = arguments_for site m e geo key claim observation g in
      decide-IsAnswered m digest e (verify_intent site.platform a m.readings g.state) g
        (λ y h. passed-errors_iff site.platform a m.readings g.state y h)

  with_key-IsAnswered :
      (m : Moment) (digest : String) (e : CustosEnvelope F) (geo : Option String) (key : Option Key)
      (g : Gateway F D Key S)
      → IsAnswered (with_key site m digest e geo key g).0
  unfolding with_key
  with_key-IsAnswered m digest e geo none g =
      deny-IsAnswered m digest e.agent.id (some e.intent.target) (invalid_signature ∷ [])
        (concat "No registered key for agent "
          (concat e.agent.id "; signature cannot be verified."))
        none none refl
  with_key-IsAnswered m digest e geo (some key) g =
      let (x, g') = resolve_for site m e g in judge-IsAnswered m digest e geo key x g'

  -- The server never looks for the first of no errors when it denies an intent: each denial it answers
  -- with names an error, and its HTTP status is that of the first.
  pub post_intent-IsAnswered :
      (m : Moment) (e : CustosEnvelope F) (geo : Option String) (g : Gateway F D Key S)
      → IsAnswered (post_intent site m e geo g).0
  unfolding post_intent
  post_intent-IsAnswered m e geo g =
      elim (Option-cases (envelope_hash site.platform site.sha256_hex e)) [
        | inl wild ↦ rw (wild, post_intent) tt
        | inr (digest, x) ↦
            rw (x, post_intent)
              (with_key-IsAnswered m digest e geo (key_of e.agent.id g.agent_keys) g)
      ]
