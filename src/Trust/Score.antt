-- ===== src/Trust/Score.antt =====
-- trust.py: `_score`, `score` and `meets_threshold`.
use asset_embedding_protocol.Prelude.{
  ℕ, String, ◌≡◌, inl, inr, Bool, true, none, some, arith, if◌then◌else◌, ◌==◌, nat_eq, string_eq,
  Option-cases,
}
use asset_embedding_protocol.Prelude.Int.{ℤ, pos, sub_ℕ}
use asset_embedding_protocol.Number.{Float, FloatLaws, max_float, min_float}
use asset_embedding_protocol.Dict
use asset_embedding_protocol.Trust.{MutableHistory, TrustEngine}

module _ {F : Type 0} ⦃f : Float F⦄ where
  -- a / b of two counts
  abbrev ratio : ℕ → ℕ → F
  ratio a b = f.div (f.of_int (pos a)) (f.of_int (pos b))

  -- max(0.0, 1 - weight * n)
  abbrev remaining : F → ℤ → F
  remaining weight n = max_float f.nought (f.sub f.one (f.mul weight (f.of_int n)))

  -- the weighted sum of `_score`
  unfoldable pub weighted : MutableHistory → F
  weighted h =
      f.add
        (f.add
          (f.add
            (f.add
              (f.add (f.mul (f.literal 35 2) (ratio h.successful_intents h.total_intents)) (
                f.mul (f.literal 25 2) (f.sub f.one (ratio h.boundary_violations h.total_intents))))
              (f.mul (f.literal 15 2) (remaining (f.literal 30 2) (pos h.revocation_count))))
            (f.mul (f.literal 10 2) (remaining (f.literal 15 2) (pos h.attestation_changes))))
          (f.mul (f.literal 5 2) (remaining (f.literal 20 2) (sub_ℕ h.delegation_depth 1))))
        (f.mul (f.literal 10 2) (min_float f.one (ratio h.total_intents 100)))

  -- _score
  unfoldable pub score_of : MutableHistory → F
  score_of h =
      if h.total_intents == 0
      then f.nought
      else f.round (min_float f.one (max_float f.nought (weighted h))) 4

  unfoldable pub score : String → TrustEngine F → F
  score agent t = elim (Dict.get agent t.history) [ none ↦ f.nought | some h ↦ score_of h ]

  unfoldable pub meets_threshold : String → F → TrustEngine F → Bool
  meets_threshold agent min_score t =
      if f.le min_score f.nought then true else f.le min_score (score agent t)

  module _ (laws : FloatLaws f) where
    clamp_bounds :
        (v : F)
        → (f.le f.nought (min_float f.one (max_float f.nought v)) ≡ true)
          × (f.le (min_float f.one (max_float f.nought v)) f.one ≡ true)
    unfolding min_float max_float
    clamp_bounds v = ground (
      arith,
      laws.le_of_lt f.nought v,
      laws.le_of_lt v f.one,
      laws.le_of_lt f.nought f.one,
      laws.le_nought,
      laws.le_one,
      laws.nought-le-one,
    )

    score_of_bounds :
        (h : MutableHistory)
        → (f.le f.nought (score_of h) ≡ true) × (f.le (score_of h) f.one ≡ true)
    unfolding score_of
    score_of_bounds h =
        let c = clamp_bounds (weighted h) in
        let x = min_float f.one (max_float f.nought (weighted h)) in
        ground (
          arith,
          laws.le_nought,
          laws.nought-le-one,
          laws.round_mono f.nought x c.0,
          laws.round_mono x f.one c.1,
          laws.round_nought,
          laws.round_one,
        )

    -- Every score lies in [0.0, 1.0], whatever the history, a NaN in the weighted sum included. The
    -- floats obey `FloatLaws`.
    pub score_bounds :
        (agent : String) (t : TrustEngine F)
        → (f.le f.nought (score agent t) ≡ true) × (f.le (score agent t) f.one ≡ true)
    unfolding score
    score_bounds agent t = elim (Option-cases (Dict.get agent t.history)) [
      | inl unseen ↦ (ground (arith, laws.le_nought), ground (arith, laws.nought-le-one))
      | inr (h, e) ↦
          (ground (arith, e, (score_of_bounds h).0), ground (arith, e, (score_of_bounds h).1))
    ]
