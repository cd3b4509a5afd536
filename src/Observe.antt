-- ===== src/Observe.antt =====
-- custos_protocol/observe.py: the store of observations; `Wrapper` has the wrapper around a synchronous
-- call. A callback is code of the caller; `record` ignores what it raises, so it is left out of the state.
pub mod Wrapper
use asset_embedding_protocol.Prelude.{
  ℕ, suc, String, ◌≡◌, Option, none, some, List, [], ◌∷◌, ◌++◌, Bool, not, if◌then◌else◌, arith,
  ◌+◌, ◌≤◌, length, ltb, ◌&&◌, eq_iff, ◌==◌, nat_eq, string_eq, ap, true, false, zero, ◌-◌, ◌*◌,
  ◌/◌, ◌%◌, ◌^◌, ◌<◌, refl, sym, ◌∙◌, subst, ◌≢◌, ◌↔◌, ◌⊎◌, inl, inr, ◌||◌, map, leb, ltb→lt,
  leb→le, tests, Eq, Bool-cases, Option-cases, &&_true, length-append, is_nonempty, All, All-append,
  All-map, contains, subset, Among, contains-Among, Among-contains, contains-subset,
  subset-nonempty,
}
use asset_embedding_protocol.Dict
use asset_embedding_protocol.Dict.{Dict}
use asset_embedding_protocol.Dict.Laws.{get-put}

-- class ObservationEvent, over the types of the parameters' and results' values
pub record ObservationEvent (V : Type 0) : Type 0 where
  pub agent_id : String
  pub agent_name : String
  pub action : String
  pub parameters : Dict V
  pub result : Option V
  pub error : Option String
  pub success : Bool
  pub timestamp : String
  pub latency : ℕ
  pub caller : Option String
  pub event_id : String

-- {"total": …, "success": …, "errors": …}
pub record Counters : Type 0 where
  pub total : ℕ
  pub success : ℕ
  pub errors : ℕ

abbrev pub no_calls : Counters
no_calls = record { total = 0; success = 0; errors = 0 }

-- class ObservationStore; `maxlen` is that of the deque
pub record ObservationStore (V : Type 0) : Type 0 where
  pub events : List (ObservationEvent V)
  pub maxlen : ℕ
  pub stats : Dict Counters

-- setdefault
abbrev counters_or_new : Option Counters → Counters
counters_or_new none = no_calls
counters_or_new (some c) = c

-- the two increments of `record`
unfoldable pub count : Bool → Counters → Counters
count success c = record c {
  total = c.total + 1;
  success = if success then c.success + 1 else c.success;
  errors = if success then c.errors else c.errors + 1;
}

module _ {V : Type 0} where
  -- what a deque with a maximal length drops from its left end
  unfoldable pub drop_oldest : ℕ → List (ObservationEvent V) → List (ObservationEvent V)
  drop_oldest maxlen [] = []
  drop_oldest maxlen (e ∷ es) =
      let rest = drop_oldest maxlen es in if ltb maxlen (length (e ∷ es)) then rest else e ∷ es

  -- ObservationStore.record
  unfoldable pub record_event : ObservationEvent V → ObservationStore V → ObservationStore V
  unfolding drop_oldest count
  record_event event s = record s {
    events = drop_oldest s.maxlen (s.events ++ event ∷ []);
    stats =
        Dict.put event.agent_id
          (count event.success (counters_or_new (Dict.get event.agent_id s.stats))) s.stats;
  }

  -- events_for_agent
  unfoldable pub events_for_agent : String → List (ObservationEvent V) → List (ObservationEvent V)
  events_for_agent agent [] = []
  events_for_agent agent (e ∷ es) =
      let rest = events_for_agent agent es in if e.agent_id == agent then e ∷ rest else rest

  -- stats(agent_id)
  unfoldable pub stats_of : String → ObservationStore V → Counters
  stats_of agent s = counters_or_new (Dict.get agent s.stats)

  -- clear
  unfoldable pub clear_events : ObservationStore V → ObservationStore V
  clear_events s = record s { events = []; stats = [] }

  unfoldable pub record_all : List (ObservationEvent V) → ObservationStore V → ObservationStore V
  record_all [] s = s
  record_all (e ∷ es) s = record_all es (record_event e s)

  -- how many of some events are an agent's, with a given success
  unfoldable pub tally : String → Bool → List (ObservationEvent V) → ℕ
  tally agent success [] = 0
  tally agent success (e ∷ es) =
      let rest = tally agent success es in
      if e.agent_id == agent && (if success then e.success else not e.success)
      then suc rest
      else rest

  length-drop_oldest-le :
      (maxlen : ℕ) (es : List (ObservationEvent V)) → length (drop_oldest maxlen es) ≤ maxlen
  unfolding drop_oldest
  length-drop_oldest-le maxlen [] = omega arith
  length-drop_oldest-le maxlen (e ∷ es) = ground (arith, length-drop_oldest-le maxlen es)

  pub stats-record_event :
      (e : ObservationEvent V) (agent : String) (s : ObservationStore V)
      → stats_of agent (record_event e s)
        ≡ (if e.agent_id == agent then count e.success (stats_of agent s) else stats_of agent s)
  unfolding stats_of record_event
  stats-record_event e agent s = ground (
    arith,
    get-put e.agent_id agent (count e.success (stats_of e.agent_id s)) s.stats,
    eq_iff e.agent_id agent,
  )

  -- After any events are recorded, an agent's counters have grown by the number of its events: the
  -- successful ones, the failed ones, and both in the total, also where the ring buffer dropped some.
  pub stats-record_all :
      (agent : String) (es : List (ObservationEvent V)) (s : ObservationStore V)
      → let before = stats_of agent s in
        let after = stats_of agent (record_all es s) in
        (after.success ≡ before.success + tally agent true es)
        × (after.errors ≡ before.errors + tally agent false es)
        × (after.total ≡ before.total + (tally agent true es + tally agent false es))
  unfolding record_all tally count
  stats-record_all agent [] s = (omega arith, omega arith, omega arith)
  stats-record_all agent (e ∷ es) s =
      let rest = stats-record_all agent es (record_event e s) in
      let step = stats-record_event e agent s in
      let total = ap (λ (c : Counters). c.total) step in
      let success = ap (λ (c : Counters). c.success) step in
      let errors = ap (λ (c : Counters). c.errors) step in
      (
        ground (arith, rest.0, success),
        ground (arith, rest.1, errors),
        ground (arith, rest.2, total),
      )

  -- Recording an event leaves the buffer with no more events than its length.
  pub record_event_bounded :
      (e : ObservationEvent V) (s : ObservationStore V)
      → length (record_event e s).events ≤ s.maxlen
  unfolding record_event
  record_event_bounded e s = length-drop_oldest-le s.maxlen (s.events ++ e ∷ [])
