-- ===== src/Trust/Reserve.antt =====
-- trust.py: what a reservation promises, and what its release takes back.
use asset_embedding_protocol.Prelude.{
  ℕ, ◌≤◌, String, ◌≡◌, ◌≢◌, ◌↔◌, true, false, ◌&&◌, none, some, [], ◌∷◌, ◌++◌, arith, eq_iff,
  nat_eq, string_eq,
}
use asset_embedding_protocol.Number.{Float}
use asset_embedding_protocol.Dict
use asset_embedding_protocol.Errors.{monetary_limit_per_day}
use asset_embedding_protocol.Boundaries.{day_violations}
use asset_embedding_protocol.Trust.{
  TrustEngine, amounts, entries_of, fresh, prune, enter, release_amount, day_total, reserve_amount,
}
use asset_embedding_protocol.Trust.Ledger.{
  live, prune-live, live-prune, live-enter, day_total-live, amounts-append, live-release,
}

module _ {F : Type 0} ⦃f : Float F⦄ where
  live-granted :
      (agent other token : String) (now at : ℕ) (amount : F) (t : TrustEngine F)
      → now ≤ at
      → agent ≢ other
      → Dict.has token (entries_of agent t) ≡ false
      → live other at (enter agent token now amount (prune agent now t).0 (prune agent now t).1)
        ≡ live other at t
  live-granted agent other token now at amount t h apart new =
      ground (arith, live-enter agent other token now at amount t h new, eq_iff agent other, apart)

  amounts-granted :
      (agent token : String) (now : ℕ) (amount : F) (t : TrustEngine F)
      → Dict.has token (entries_of agent t) ≡ false
      → amounts (
          live agent now (enter agent token now amount (prune agent now t).0 (prune agent now t).1))
        ≡ amounts (live agent now t) ++ amount ∷ []
  unfolding fresh
  amounts-granted agent token now amount t new =
      rw (live-enter agent agent token now now amount t (omega arith) new)
        (ground (arith, eq_iff agent agent, amounts-append (live agent now t) token (now, amount)))

  -- A reservation that is accepted, under a token that is not in use, reports the day's total before it,
  -- with which the amount is not above a limit that is positive. The agent's amounts of the day are then,
  -- at that time, those before with the new one at the end, and every other agent's total of that time
  -- or later is as it was.
  pub reserve_amount_accepted :
      (agent other : String) (amount limit : F) (now at : ℕ) (token granted : String)
      (t : TrustEngine F)
      → Dict.has token (entries_of agent t) ≡ false
      → now ≤ at
      → agent ≢ other
      → (reserve_amount agent amount limit now token t).0.0 ≡ some granted
      → let r = reserve_amount agent amount limit now token t in
        let before = (day_total agent now t).0 in
        (granted ≡ token)
        × (r.0.1 ≡ before)
        × ((f.lt f.nought limit && f.lt limit (f.add before amount)) ≡ false)
        × (amounts (live agent now r.1) ≡ amounts (live agent now t) ++ amount ∷ [])
        × ((day_total other at r.1).0 ≡ (day_total other at t).0)
  unfolding reserve_amount
  reserve_amount_accepted agent other amount limit now at token granted t new h apart accepted =
      let p = (prune-live agent now t).0 in
      let g = amounts-granted agent token now amount t new in
      let b = day_total-live agent now t in
      let kept = live-granted agent other token now at amount t h apart new in
      let e = enter agent token now amount (prune agent now t).0 (prune agent now t).1 in
      let u = day_total-live other at t in
      let v = day_total-live other at e in
      (
        ground arith,
        ground (arith, p, b),
        ground (arith, p, b),
        ground (arith, g),
        ground (arith, kept, u, v),
      )

  -- A reservation that is rejected would have passed a positive limit, and leaves every agent's total of
  -- that time or later as it was.
  pub reserve_amount_rejected :
      (agent other : String) (amount limit : F) (now at : ℕ) (token : String) (t : TrustEngine F)
      → now ≤ at
      → (reserve_amount agent amount limit now token t).0.0 ≡ none
      → let r = reserve_amount agent amount limit now token t in
        (f.lt f.nought limit ≡ true)
        × (f.lt limit (f.add (day_total agent now t).0 amount) ≡ true)
        × ((day_total other at r.1).0 ≡ (day_total other at t).0)
  unfolding reserve_amount
  reserve_amount_rejected agent other amount limit now at token t h rejected =
      let p = (prune-live agent now t).0 in
      let b = day_total-live agent now t in
      let same = live-prune agent other now at t h in
      let q = day_total-live other at (prune agent now t).1 in
      let u = day_total-live other at t in
      (ground (arith, p, b), ground (arith, p, b), ground (arith, same, q, u))

  -- A reservation is rejected exactly where the daily predicate of the boundaries reports a violation
  -- for the total that the reservation returned.
  pub reserve_amount-day_violations_iff :
      (agent : String) (amount limit : F) (now : ℕ) (token : String) (t : TrustEngine F)
      → let r = reserve_amount agent amount limit now token t in
        (r.0.0 ≡ none) ↔ (day_violations (some amount) limit r.0.1 ≡ monetary_limit_per_day ∷ [])
  unfolding reserve_amount day_violations
  reserve_amount-day_violations_iff agent amount limit now token t = ground arith

  -- Releasing a reservation that was accepted, under a token that was not in use, takes it back: every
  -- agent's total of that time or later is what it would have been without the reservation.
  pub release-reserve_amount :
      (agent other : String) (amount limit : F) (now at : ℕ) (token granted : String)
      (t : TrustEngine F)
      → Dict.has token (entries_of agent t) ≡ false
      → now ≤ at
      → (reserve_amount agent amount limit now token t).0.0 ≡ some granted
      → (day_total other at
          (release_amount agent (some granted) (reserve_amount agent amount limit now token t).1)).0
        ≡ (day_total other at t).0
  unfolding reserve_amount
  release-reserve_amount agent other amount limit now at token granted t new h accepted =
      let e = enter agent token now amount (prune agent now t).0 (prune agent now t).1 in
      let back = live-release agent token now amount t new other at h in
      let a = day_total-live other at (release_amount agent (some token) e) in
      let u = day_total-live other at t in ground (arith, back, a, u)
