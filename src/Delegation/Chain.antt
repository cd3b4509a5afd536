-- ===== src/Delegation/Chain.antt =====
-- `check_delegation` against a description of a chain of links, and what an accepted chain implies.
use asset_embedding_protocol.Prelude.{
  ℕ, ◌≡◌, List, String, some, length, ◌≤◌, none, All, arith, ◌+◌, ◌*◌, ◌∷◌, Option-cases, eq_iff,
  suc, refl, ◌↔◌, inl, inr, Option, [], nat_eq, string_eq,
}
use asset_embedding_protocol.Number.{Float, FloatLaws}
use asset_embedding_protocol.Models.{
  Boundaries, CustosEnvelope, DelegationLink, second, Claim, action_value,
}
use asset_embedding_protocol.Delegation.{
  discontinuity, delegation_detail, widening, untimely, last_link, envelope_widening,
  containment_violation, chain_detail, has_expired, DelegationConfig, check_delegation,
}
use asset_embedding_protocol.Boundaries.{check_boundaries, violations, numeric}
use asset_embedding_protocol.Delegation.Containment.{IsNamed, contained-violations}
use asset_embedding_protocol.Dict.{get}

module _ {F : Type 0} ⦃f : Float F⦄ where
  -- A chain of links leads from one identity to another.
  abbrev pub Connects : String → List (DelegationLink F) → String → Type 0
  Connects a [] b = a ≡ b
  Connects a (l ∷ ls) b = (l.from_id ≡ a) × Connects l.to_id ls b

  -- A link that has not expired at `now` and was granted at most `grace` after it.
  abbrev pub IsTimely : ℕ → ℕ → DelegationLink F → Type 0
  IsTimely grace now l = ((t : ℕ) → l.expires_at ≡ some t → now ≤ t) × (l.granted_at ≤ now + grace)

  -- Each link's boundaries are contained in those of the link before, and the last in none wider.
  abbrev pub Narrows : Boundaries F → DelegationLink F → List (DelegationLink F) → Type 0
  Narrows own l [] = containment_violation own l.boundaries ≡ none
  Narrows own l (m ∷ ms) =
      (containment_violation m.boundaries l.boundaries ≡ none) × Narrows own m ms

  abbrev pub NarrowsChain : Boundaries F → List (DelegationLink F) → Type 0
  NarrowsChain own [] = Unit
  NarrowsChain own (l ∷ ls) = Narrows own l ls

  pub record IsAuthorised (e : CustosEnvelope F) (config : DelegationConfig) (now : ℕ)
      (chain : List (DelegationLink F)) : Type 0 where
    pub connects : Connects e.principal.id chain e.agent.id
    pub depth : length chain ≤ config.max_delegation_depth
    pub timely : All (IsTimely (config.clock_skew_seconds * second) now) chain
    pub narrows : NarrowsChain e.boundaries chain

  discontinuity-Connects :
      (i : ℕ) (l : DelegationLink F) (ls : List (DelegationLink F)) (b : String)
      → discontinuity i l ls ≡ none
      → (last_link l ls).to_id ≡ b
      → Connects l.to_id ls b
  unfolding discontinuity last_link
  discontinuity-Connects i l [] b h e = e
  discontinuity-Connects i l (m ∷ ms) b h e = (
    ground (arith, eq_iff l.to_id m.from_id),
    discontinuity-Connects (suc i) m ms b (ground arith) e,
  )

  Connects-discontinuity :
      (i : ℕ) (l : DelegationLink F) (ls : List (DelegationLink F)) (b : String)
      → Connects l.to_id ls b
      → (discontinuity i l ls ≡ none) × ((last_link l ls).to_id ≡ b)
  unfolding discontinuity last_link
  Connects-discontinuity i l [] b h = (refl, h)
  Connects-discontinuity i l (m ∷ ms) b h =
      let r = Connects-discontinuity (suc i) m ms b h.1 in
      (ground (arith, eq_iff l.to_id m.from_id), r.1)

  untimely-IsTimely :
      (grace now i : ℕ) (ls : List (DelegationLink F))
      → untimely grace now i ls ≡ none
      → All (IsTimely grace now) ls
  unfolding untimely has_expired
  untimely-IsTimely grace now i [] h = tt
  untimely-IsTimely grace now i (l ∷ ls) h =
      ((λ t e. ground arith, ground arith), untimely-IsTimely grace now (suc i) ls (ground arith))

  IsTimely-untimely :
      (grace now i : ℕ) (ls : List (DelegationLink F))
      → All (IsTimely grace now) ls
      → untimely grace now i ls ≡ none
  unfolding untimely has_expired
  IsTimely-untimely grace now i [] h = refl
  IsTimely-untimely grace now i (l ∷ ls) h = elim (Option-cases l.expires_at) [
    | inl forever ↦ ground (arith, IsTimely-untimely grace now (suc i) ls h.1)
    | inr (t, e) ↦ ground (arith, IsTimely-untimely grace now (suc i) ls h.1, h.0.0 t e)
  ]

  widening-Narrows :
      (own : Boundaries F) (i : ℕ) (l : DelegationLink F) (ls : List (DelegationLink F))
      → widening i l ls ≡ none
      → envelope_widening own (last_link l ls) ≡ none
      → Narrows own l ls
  unfolding widening envelope_widening last_link
  widening-Narrows own i l [] h k = ground arith
  widening-Narrows own i l (m ∷ ms) h k =
      (ground arith, widening-Narrows own (suc i) m ms (ground arith) k)

  Narrows-widening :
      (own : Boundaries F) (i : ℕ) (l : DelegationLink F) (ls : List (DelegationLink F))
      → Narrows own l ls
      → (widening i l ls ≡ none) × (envelope_widening own (last_link l ls) ≡ none)
  unfolding widening envelope_widening last_link
  Narrows-widening own i l [] h = (refl, ground arith)
  Narrows-widening own i l (m ∷ ms) h =
      let r = Narrows-widening own (suc i) m ms h.1 in (ground (arith, h.0, r.0), r.1)

  delegation_detail-IsAuthorised :
      (e : CustosEnvelope F) (config : DelegationConfig) (now : ℕ) (chain : List (DelegationLink F))
      → delegation_detail e config now chain ≡ none
      → IsAuthorised e config now chain
  unfolding delegation_detail chain_detail
  delegation_detail-IsAuthorised e config now [] h = record {
    connects = ground (arith, eq_iff e.principal.id e.agent.id);
    depth = omega arith;
    timely = tt;
    narrows = tt;
  }
  delegation_detail-IsAuthorised e config now (l ∷ ls) h = record {
    connects = (
      ground (arith, eq_iff l.from_id e.principal.id),
      discontinuity-Connects 0 l ls e.agent.id (ground arith)
          (ground (arith, eq_iff (last_link l ls).to_id e.agent.id)),
    );
    depth = ground arith;
    timely = untimely-IsTimely (config.clock_skew_seconds * second) now 0 (l ∷ ls) (ground arith);
    narrows = widening-Narrows e.boundaries 0 l ls (ground arith) (ground arith);
  }

  IsAuthorised-delegation_detail :
      (e : CustosEnvelope F) (config : DelegationConfig) (now : ℕ) (chain : List (DelegationLink F))
      → IsAuthorised e config now chain
      → delegation_detail e config now chain ≡ none
  unfolding delegation_detail chain_detail
  IsAuthorised-delegation_detail e config now [] a =
      ground (arith, a.connects, eq_iff e.principal.id e.agent.id)
  IsAuthorised-delegation_detail e config now (l ∷ ls) a =
      let c = Connects-discontinuity 0 l ls e.agent.id a.connects.1 in
      let n = Narrows-widening e.boundaries 0 l ls a.narrows in
      let t = IsTimely-untimely (config.clock_skew_seconds * second) now 0 (l ∷ ls) a.timely in
      ground (
        arith,
        a.depth,
        a.connects.0,
        c.0,
        c.1,
        n.0,
        n.1,
        t,
        eq_iff l.from_id e.principal.id,
        eq_iff (last_link l ls).to_id e.agent.id,
      )

  -- `check_delegation` accepts exactly if the links lead from the principal to the agent (with no link
  -- these are one identity), are no more than the configured depth, are all in force at `now` up to the
  -- grace on the grant, and each hop's boundaries, the envelope's own last, are contained in the hop before.
  pub check_delegation-IsAuthorised_iff :
      (e : CustosEnvelope F) (config : DelegationConfig) (now : ℕ)
      → (check_delegation e config now ≡ none)
        ↔ IsAuthorised e config now e.principal.delegation_chain
  unfolding check_delegation
  check_delegation-IsAuthorised_iff e config now = (
    λ h. delegation_detail-IsAuthorised e config now e.principal.delegation_chain (ground arith),
    λ a. ground (arith, IsAuthorised-delegation_detail e config now e.principal.delegation_chain a),
  )

-- What passes the envelope's own boundaries passes those of every hop.
module _ {F D : Type 0} ⦃f : Float F⦄ (laws : FloatLaws f) (action : String) (amount : Option F)
    (claim : Option (Claim D)) (request_geo : Option String) (now : ℕ) (day_total : F)
    (named : IsNamed request_geo) where
  abbrev Admits : Boundaries F → Type 0
  Admits b = violations b action amount claim request_geo now day_total ≡ []

  Narrows-All :
      (own : Boundaries F) (l : DelegationLink F) (ls : List (DelegationLink F))
      → Narrows own l ls
      → Admits own
      → All (λ (m : DelegationLink F). Admits m.boundaries) (l ∷ ls)
  Narrows-All own l [] h a = (
    contained-violations laws own l.boundaries action amount claim request_geo now day_total named h
        a,
    tt,
  )
  Narrows-All own l (m ∷ ms) h a =
      let r = Narrows-All own m ms h.1 a in
      (
        contained-violations laws m.boundaries l.boundaries action amount claim request_geo now
            day_total named h.0 r.0,
        r,
      )

  chain-All :
      (own : Boundaries F) (chain : List (DelegationLink F))
      → NarrowsChain own chain
      → Admits own
      → All (λ (m : DelegationLink F). Admits m.boundaries) chain
  chain-All own [] h a = tt
  chain-All own (l ∷ ls) h a = Narrows-All own l ls h a

-- If `check_delegation` accepts an envelope and its action breaks none of its own boundaries, it breaks
-- the boundaries of no hop of the chain, for the same request, at any time `at` and any daily total:
-- authority never widens on the way from the principal. The request's place, where it is given, is not
-- blank, and the floats obey `FloatLaws`.
pub delegation_never_widens :
    {F D : Type 0} ⦃f : Float F⦄ (laws : FloatLaws f) (e : CustosEnvelope F)
    (config : DelegationConfig) (now : ℕ) (claim : Option (Claim D)) (request_geo : Option String)
    (at : ℕ) (day_total : F)
    → IsNamed request_geo
    → check_delegation e config now ≡ none
    → check_boundaries e claim request_geo at day_total ≡ some []
    → (amount : Option F) × (numeric (get "amount" e.intent.parameters) ≡ some amount)
      × All
          (λ (link : DelegationLink F).
            violations link.boundaries
              (action_value e.intent.action)
              amount
              claim
              request_geo
              at
              day_total
            ≡ [])
          e.principal.delegation_chain
unfolding check_boundaries
delegation_never_widens laws e config now claim request_geo at day_total named h b =
    elim (Option-cases (numeric (get "amount" e.intent.parameters))) [
      | inl huge ↦ absurd (ground (arith, huge, b))
      | inr (amount, given) ↦ (
        amount,
        given,
        chain-All laws (action_value e.intent.action) amount claim request_geo at day_total named
            e.boundaries e.principal.delegation_chain
            (((check_delegation-IsAuthorised_iff e config now).0 h).narrows)
            (ground (arith, given, b)),
      )
    ]
