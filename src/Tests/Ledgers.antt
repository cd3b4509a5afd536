-- ===== src/Tests/Ledgers.antt =====
-- Examples of the trust engine and of the revocation store.
use asset_embedding_protocol.Prelude.{
  ℕ, ◌≡◌, refl, none, some, [], ◌∷◌, String, arith, ◌↔◌, true, false, ◌≤◌, length, List, ◌&&◌,
  nat_eq, string_eq, ◌≢◌, ◌++◌, eq_iff,
}
use asset_embedding_protocol.Dict
use asset_embedding_protocol.Number.Fixed.{fixed, fixed_laws, fixed_decimal}
use asset_embedding_protocol.Errors.{monetary_limit_per_day}
use asset_embedding_protocol.Boundaries.{day_violations}
use asset_embedding_protocol.Tests.Fixtures.{noon}
use asset_embedding_protocol.Trust.{
  reserve_amount, TrustEngine, day_total, total, amounts, fresh, enter, prune, store_entries,
  entries_of, release_amount,
}
use asset_embedding_protocol.Trust.Score.{score_bounds, score}
use asset_embedding_protocol.Trust.Reserve.{
  reserve_amount_accepted, reserve_amount_rejected, reserve_amount-day_violations_iff,
  release-reserve_amount,
}
use asset_embedding_protocol.Revocation.{
  drop_stale, new_store, check_nonce, RevocationStore, is_revoked, agent,
}
use asset_embedding_protocol.Revocation.Nonces.{
  replay_refused, check_nonce_bounded, check_all, Check,
}
use asset_embedding_protocol.Revocation.KillSwitch.{
  is_revoked-effect_all, run_all, Command, revoking, suspending, reinstating, querying, effect_all,
  blocks, standing,
}
use asset_embedding_protocol.Prelude.Int.{pos}
use asset_embedding_protocol.Trust.Ledger.{live}

-- 600 spent so far
abbrev spent : TrustEngine ℕ
spent = record { history = []; ledger = ("agent", ("token-0", (noon, 600)) ∷ []) ∷ [] }

room_left : (reserve_amount "agent" 200 800 noon "token-1" spent).0.0 ≡ some "token-1"
unfolding reserve_amount prune entries_of fresh store_entries enter total amounts Dict.get Dict.put
room_left = refl

no_room : (reserve_amount "agent" 201 800 noon "token-1" spent).0.0 ≡ none
unfolding reserve_amount prune entries_of fresh store_entries enter total amounts Dict.get Dict.put
no_room = refl

new_token : Dict.has "token-1" (entries_of "agent" spent) ≡ false
unfolding entries_of Dict.get
new_token = refl

agent-other : let subject : String = "agent" in subject ≢ "other"
agent-other e = absurd (ground (arith, eq_iff "agent" "other", e))

reserve_amount_accepted_example :
    let token : String = "token-1" in
    let r = reserve_amount "agent" 200 800 noon token spent in
    let before = (day_total "agent" noon spent).0 in
    (token ≡ token)
    × (r.0.1 ≡ before)
    × ((fixed.lt fixed.nought 800 && fixed.lt 800 (fixed.add before 200)) ≡ false)
    × (amounts (live "agent" noon r.1) ≡ amounts (live "agent" noon spent) ++ 200 ∷ [])
    × ((day_total "other" noon r.1).0 ≡ (day_total "other" noon spent).0)
reserve_amount_accepted_example =
    reserve_amount_accepted "agent" "other" 200 800 noon noon "token-1" "token-1" spent new_token
      (omega arith) agent-other room_left

reserve_amount_rejected_example :
    let r = reserve_amount "agent" 201 800 noon "token-1" spent in
    (fixed.lt fixed.nought 800 ≡ true)
    × (fixed.lt 800 (fixed.add (day_total "agent" noon spent).0 201) ≡ true)
    × ((day_total "agent" noon r.1).0 ≡ (day_total "agent" noon spent).0)
reserve_amount_rejected_example =
    reserve_amount_rejected "agent" "agent" 201 800 noon noon "token-1" spent (omega arith) no_room

reserve_amount-day_violations_iff_example :
    let r = reserve_amount "agent" 201 800 noon "token-1" spent in
    (r.0.0 ≡ none) ↔ (day_violations (some 201) 800 r.0.1 ≡ monetary_limit_per_day ∷ [])
reserve_amount-day_violations_iff_example =
    reserve_amount-day_violations_iff "agent" 201 800 noon "token-1" spent

release-reserve_amount_example :
    (day_total "agent" noon (
      release_amount "agent"
        (some "token-1")
        (reserve_amount "agent" 200 800 noon "token-1" spent).1)).0
    ≡ (day_total "agent" noon spent).0
release-reserve_amount_example =
    release-reserve_amount "agent" "agent" 200 800 noon noon "token-1" "token-1" spent new_token
      (omega arith) room_left

score_bounds_example :
    (fixed.le fixed.nought (score "agent" spent) ≡ true)
    × (fixed.le (score "agent" spent) fixed.one ≡ true)
score_bounds_example = score_bounds fixed_laws "agent" spent

abbrev fresh_store : RevocationStore
fresh_store = new_store noon

abbrev other_check : Check
other_check = record { nonce = "b"; now = 12; stored = 13 }

new_nonce : (check_nonce "a" 100 10 11 fresh_store).0 ≡ true
unfolding check_nonce drop_stale Dict.get
new_nonce = refl

replay_refused_example :
    (check_nonce "a" 100 20 21
      (check_all 100 (other_check ∷ []) (check_nonce "a" 100 10 11 fresh_store).1)).0
    ≡ false
replay_refused_example =
    replay_refused "a" 100 10 11 fresh_store (other_check ∷ []) 20 21 new_nonce (omega arith, tt)
      (omega arith) (omega arith)

check_nonce_bounded_example :
    length (check_nonce "a" 100 10 11 fresh_store).1.nonces
    ≤ (check_nonce "a" 100 10 11 fresh_store).1.max_nonces
check_nonce_bounded_example = check_nonce_bounded "a" 100 10 11 fresh_store (omega arith)

abbrev commands : List Command
commands =
    suspending "agent" agent (pos 1800) "" "breaker" "global" 0 0 0
    ∷ revoking "agent" agent "" "admin" "global" 5 5
    ∷ querying "agent" 6
    ∷ reinstating "other" 7
    ∷ []

is_revoked-effect_all_example :
    (is_revoked "agent" 9 (run_all commands fresh_store)).0
    ≡ blocks (effect_all "agent" commands (standing "agent" fresh_store)) 9
is_revoked-effect_all_example =
    is_revoked-effect_all commands "agent" 9 fresh_store (tt, (tt, (omega arith, (tt, tt))))
