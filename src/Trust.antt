-- ===== src/Trust.antt =====
-- custos_protocol/trust.py: an agent's history and score, and the ledger of the rolling day. Each
-- method takes the clock's reading and, where it draws one, the token of `uuid4` as arguments.
pub mod Ledger
pub mod Score
pub mod Reserve
use asset_embedding_protocol.Prelude.{
  ℕ, zero, suc, ◌+◌, ◌-◌, ◌*◌, ◌/◌, ◌%◌, ◌^◌, ◌≤◌, ◌<◌, String, ◌≡◌, refl, sym, ap, ◌∙◌, subst, ◌≢◌,
  ◌↔◌, ◌⊎◌, inl, inr, Bool, true, false, not, ◌&&◌, ◌||◌, Option, none, some, List, [], ◌∷◌, ◌++◌,
  map, arith, eq_iff, ltb, leb, if◌then◌else◌, ltb→lt, leb→le, tests, Eq, ◌==◌, nat_eq, string_eq,
  Bool-cases, Option-cases, &&_true, length, length-append, is_nonempty, All, All-append, All-map,
  contains, subset, Among, contains-Among, Among-contains, contains-subset, subset-nonempty,
}
use asset_embedding_protocol.Prelude.Int.{ℤ, pos, sub_ℕ}
use asset_embedding_protocol.Number.{Float, max_float, min_float}
use asset_embedding_protocol.Dict
use asset_embedding_protocol.Dict.{Dict}
use asset_embedding_protocol.Models.{AgentHistory, second}

-- _DAY
abbrev pub day : ℕ
day = 86400 * second

-- class _MutableHistory
pub record MutableHistory : Type 0 where
  pub agent_id : String
  pub total_intents : ℕ
  pub successful_intents : ℕ
  pub boundary_violations : ℕ
  pub revocation_count : ℕ
  pub attestation_changes : ℕ
  pub delegation_depth : ℕ
  pub first_seen : Option ℕ
  pub last_seen : Option ℕ
  pub last_build_hash : Option String
  pub last_prompt_hash : Option String

-- the time and the amount of each reservation, by its token
abbrev pub Entries : Type 0 → Type 0
Entries F = Dict (ℕ × F)

-- class TrustEngine
pub record TrustEngine (F : Type 0) : Type 0 where
  pub history : Dict MutableHistory
  pub ledger : Dict (Entries F)

unfoldable pub new_history : String → ℕ → MutableHistory
new_history agent now = record {
  agent_id = agent;
  total_intents = 0;
  successful_intents = 0;
  boundary_violations = 0;
  revocation_count = 0;
  attestation_changes = 0;
  delegation_depth = 0;
  first_seen = some now;
  last_seen = some now;
  last_build_hash = none;
  last_prompt_hash = none;
}

abbrev pub or_new : Option MutableHistory → String → ℕ → MutableHistory
or_new none agent now = new_history agent now
or_new (some h) agent now = h

-- a hash is given, one was seen before, and the two differ
unfoldable pub changed : Option String → Option String → Bool
changed (some new) (some old) = not (new == old)
changed new old = false

abbrev pub one_if : Bool → ℕ
one_if b = if b then 1 else 0

-- the hash that is remembered
abbrev pub latest : Option String → Option String → Option String
latest (some new) old = some new
latest none old = old

-- the fields of a history that are public
unfoldable pub public_history : MutableHistory → AgentHistory
public_history h = record {
  agent_id = h.agent_id;
  total_intents = h.total_intents;
  successful_intents = h.successful_intents;
  boundary_violations = h.boundary_violations;
  revocation_count = h.revocation_count;
  attestation_changes = h.attestation_changes;
  delegation_depth = h.delegation_depth;
  first_seen = h.first_seen;
  last_seen = h.last_seen;
}

module _ {F : Type 0} where
  -- _get_or_create
  unfoldable pub get_or_create : String → ℕ → TrustEngine F → MutableHistory
  unfolding new_history
  get_or_create agent now t = or_new (Dict.get agent t.history) agent now

  -- a mutation of the agent's history, which is created first where it is missing
  unfoldable pub amend :
      String → ℕ → (MutableHistory → MutableHistory) → TrustEngine F → TrustEngine F
  unfolding get_or_create
  amend agent now g t = record t {
    history = Dict.put agent (g (get_or_create agent now t)) t.history;
  }

  unfoldable pub record_intent : String → Bool → ℕ → TrustEngine F → TrustEngine F
  unfolding amend
  record_intent agent success now = amend agent now λ h. record h {
    total_intents = h.total_intents + 1;
    successful_intents = if success then h.successful_intents + 1 else h.successful_intents;
    last_seen = some now;
  }

  unfoldable pub record_violation : String → ℕ → TrustEngine F → TrustEngine F
  unfolding amend
  record_violation agent now =
      amend agent now
        λ h. record h { boundary_violations = h.boundary_violations + 1; last_seen = some now }

  unfoldable pub record_revocation : String → ℕ → TrustEngine F → TrustEngine F
  unfolding amend
  record_revocation agent now =
      amend agent now
        λ h. record h { revocation_count = h.revocation_count + 1; last_seen = some now }

  unfoldable pub record_attestation :
      String → Option String → Option String → ℕ → TrustEngine F → TrustEngine F
  unfolding amend changed
  record_attestation agent build prompt now = amend agent now λ h. record h {
    attestation_changes =
        h.attestation_changes
        + one_if (changed build h.last_build_hash)
        + one_if (changed prompt h.last_prompt_hash);
    last_build_hash = latest build h.last_build_hash;
    last_prompt_hash = latest prompt h.last_prompt_hash;
    last_seen = some now;
  }

  unfoldable pub record_delegation_depth : String → ℕ → ℕ → TrustEngine F → TrustEngine F
  unfolding amend
  record_delegation_depth agent depth now =
      amend agent now λ h. record h { delegation_depth = depth; last_seen = some now }

  unfoldable pub get_history : String → TrustEngine F → Option AgentHistory
  unfolding public_history
  get_history agent t = elim (Dict.get agent t.history) [
    | none ↦ none
    | some h ↦ some (public_history h)
  ]

  -- self._ledger.get(agent_id), {} where there is none
  unfoldable pub entries_of : String → TrustEngine F → Entries F
  entries_of agent t = elim (Dict.get agent t.ledger) [ none ↦ [] | some es ↦ es ]

  -- entry[0] > now - _DAY, without the subtraction
  unfoldable pub fresh : ℕ → Entries F → Entries F
  fresh now [] = []
  fresh now ((token, entry) ∷ es) =
      let rest = fresh now es in if ltb now (entry.0 + day) then (token, entry) ∷ rest else rest

  -- self._ledger[agent_id] = entries, or the agent's key removed where there is none
  unfoldable pub store_entries : String → Entries F → TrustEngine F → TrustEngine F
  store_entries agent [] t = record t { ledger = Dict.remove agent t.ledger }
  store_entries agent (x ∷ es) t = record t { ledger = Dict.put agent (x ∷ es) t.ledger }

  -- _prune_locked: the entries that are left, and the engine that holds them
  unfoldable pub prune : String → ℕ → TrustEngine F → Entries F × TrustEngine F
  unfolding entries_of fresh store_entries
  prune agent now t =
      let es = entries_of agent t in
      let left = fresh now es in
      if is_nonempty es then (left, store_entries agent left t) else ([], t)

  -- entries[token] = (now, amount); self._ledger[agent_id] = entries
  unfoldable pub enter : String → String → ℕ → F → Entries F → TrustEngine F → TrustEngine F
  enter agent token now amount es t = record t {
    ledger = Dict.put agent (Dict.put token (now, amount) es) t.ledger;
  }

  unfoldable pub release_amount : String → Option String → TrustEngine F → TrustEngine F
  unfolding entries_of store_entries
  release_amount agent none t = t
  release_amount agent (some token) t =
      let es = entries_of agent t in
      if Dict.has token es then store_entries agent (Dict.remove token es) t else t

module _ {F : Type 0} ⦃f : Float F⦄ where
  -- the amounts of the entries, oldest first
  unfoldable pub amounts : Entries F → List F
  amounts [] = []
  amounts ((token, entry) ∷ es) = entry.1 ∷ amounts es

  -- sum(amount for _, amount in entries.values())
  unfoldable pub total : Entries F → F
  unfolding amounts
  total es = f.sum (amounts es)

  unfoldable pub day_total : String → ℕ → TrustEngine F → F × TrustEngine F
  unfolding prune total
  day_total agent now t = let (es, t') = prune agent now t in (total es, t')

  unfoldable pub record_amount : String → F → ℕ → String → TrustEngine F → String × TrustEngine F
  unfolding prune enter
  record_amount agent amount now token t =
      let (es, t') = prune agent now t in (token, enter agent token now amount es t')

  -- the token, unless the reservation is rejected, and the total before it
  unfoldable pub reserve_amount :
      String → F → F → ℕ → String → TrustEngine F → (Option String × F) × TrustEngine F
  unfolding prune enter total
  reserve_amount agent amount limit now token t =
      let (es, t') = prune agent now t in
      let before = total es in
      if f.lt f.nought limit && f.lt limit (f.add before amount)
      then ((none, before), t')
      else ((some token, before), enter agent token now amount es t')
