-- ===== src/Observe/Wrapper.antt =====
-- custos_protocol/observe.py: the wrapper that `_make_wrapper` puts around a synchronous callable. The
-- callable, its arguments, results and exceptions are the caller's.
use asset_embedding_protocol.Prelude.{
  ℕ, ◌+◌, ◌-◌, String, ◌≡◌, Bool, true, false, Option, none, some, List, [], ◌∷◌, if◌then◌else◌,
  ◌==◌, ◌||◌, arith, eq_iff, nat_eq, string_eq, length, refl, ◌≢◌, ◌⊎◌, inl, inr, Bool-cases,
}
use asset_embedding_protocol.Dict
use asset_embedding_protocol.Dict.{Dict}
use Prim.Native.Char.{code}
use asset_embedding_protocol.Observe.{
  record_event, count, ObservationStore, ObservationEvent, stats_of, stats-record_event,
}

-- How a callable ends: it returns a value, or raises an exception.
pub data Ended (V E : Type 0) : Type 0 where
  returned : V → Ended V E
  raised : E → Ended V E

abbrev pub has_returned : {V E : Type 0} → Ended V E → Bool
has_returned (returned v) = true
has_returned (raised e) = false

has_colon : String → Bool
has_colon String.[] = false
has_colon (String.◌∷◌ c s) = code c == b':' || has_colon s

-- agent_id.rsplit(":", 1)[-1]
unfoldable pub last_part : String → String
unfolding has_colon
last_part String.[] = String.[]
last_part (String.◌∷◌ c s) =
    let rest = last_part s in
    if has_colon s then rest else if code c == b':' then s else String.◌∷◌ c s

-- How inspect.signature(func).bind(*args, **kwargs) ends: with the arguments by their names, by
-- TypeError, which the code catches, or by another exception (ValueError for a callable with no
-- signature), which it does not.
pub data Binding (V E : Type 0) : Type 0 where
  bound : Dict V → Binding V E
  type_error : Binding V E
  uncaught : E → Binding V E

Binding-cases :
    {V E : Type 0} (b : Binding V E)
    → ((ps : Dict V) × (b ≡ bound ps)) ⊎ (b ≡ type_error) ⊎ ((e : E) × (b ≡ uncaught e))
Binding-cases (bound ps) = inl (ps, refl)
Binding-cases type_error = inr (inl refl)
Binding-cases (uncaught e) = inr (inr (e, refl))

Ended-cases :
    {V E : Type 0} (x : Ended V E) → ((v : V) × (x ≡ returned v)) ⊎ ((e : E) × (x ≡ raised e))
Ended-cases (returned v) = inl (v, refl)
Ended-cases (raised e) = inr (e, refl)

-- The wrapper's parameters, and repr of an exception, which may itself raise.
pub record Observer (E : Type 0) : Type 0 where
  pub agent_id : String
  pub action : String
  pub log_params : Bool
  pub log_result : Bool
  pub repr : E → Ended String E

-- One call: its arguments bound to their names, and by keyword; the clocks, the caller's location and the
-- random id.
pub record Observed (V E : Type 0) : Type 0 where
  pub binding : Binding V E
  pub kwargs : Dict V
  pub started : ℕ
  pub ended : ℕ
  pub timestamp : String
  pub caller : Option String
  pub event_id : String

-- _build_parameters
unfoldable pub logged_parameters : {V E : Type 0} → Bool → Observed V E → Ended (Dict V) E
logged_parameters log_params c =
    if log_params
    then elim c.binding [
      | bound arguments ↦ returned (Dict.remove "self" arguments)
      | type_error ↦ returned (Dict.remove "self" c.kwargs)
      | uncaught e ↦ raised e
    ]
    else returned []

-- repr(error) if error is not None else None
unfoldable pub error_text :
    {V E : Type 0} → (E → Ended String E) → Ended V E → Ended (Option String) E
error_text repr (returned v) = returned none
error_text repr (raised e) = elim (repr e) [
  | returned s ↦ returned (some s)
  | raised e' ↦ raised e'
]

module _ {V E : Type 0} (o : Observer E) where
  -- the event of _record, from its parameters and the text of its error
  unfoldable pub event_with : Observed V E → Ended V E → Dict V → Option String → ObservationEvent V
  unfolding last_part
  event_with c x parameters error = record {
    agent_id = o.agent_id;
    agent_name = last_part o.agent_id;
    action = o.action;
    parameters = parameters;
    result = elim x [ returned v ↦ (if o.log_result then some v else none) | raised e ↦ none ];
    error = error;
    success = has_returned x;
    timestamp = c.timestamp;
    latency = c.ended - c.started;
    caller = c.caller;
    event_id = c.event_id;
  }

  -- the event, or the exception that building it raises
  unfoldable pub event_of : Observed V E → Ended V E → Ended (ObservationEvent V) E
  unfolding logged_parameters error_text event_with
  event_of c x = elim (logged_parameters o.log_params c) [
    | raised e ↦ raised e
    | returned parameters ↦ elim (error_text o.repr x) [
      | raised e ↦ raised e
      | returned error ↦ returned (event_with c x parameters error)
    ]
  ]

  -- what the caller gets: the callable's own way to end, unless building the event raises
  unfoldable pub seen_by_caller : Ended (ObservationEvent V) E → Ended V E → Ended V E
  seen_by_caller (returned event) x = x
  seen_by_caller (raised e) x = raised e

  -- store.record, where there is an event
  unfoldable pub recorded : Ended (ObservationEvent V) E → ObservationStore V → ObservationStore V
  unfolding record_event
  recorded (returned event) s = record_event event s
  recorded (raised e) s = s

  module _ {W : Type 0} (func : Observed V E → W → Ended V E × W) where
    -- sync_wrapper: what the caller gets, the caller's state and the store
    unfoldable pub watched :
        Observed V E → W → ObservationStore V → (Ended V E × W) × ObservationStore V
    unfolding event_of seen_by_caller recorded
    watched c w s =
        let (x, w') = func c w in let e = event_of c x in ((seen_by_caller e x, w'), recorded e s)

    -- a run of calls of the callable itself
    unfoldable pub call_all : List (Observed V E) → W → List (Ended V E) × W
    call_all [] w = ([], w)
    call_all (c ∷ cs) w = let (x, w') = func c w in let (xs, w'') = call_all cs w' in (x ∷ xs, w'')

    -- a run of calls of the wrapper
    unfoldable pub watch_all :
        List (Observed V E) → W → ObservationStore V → (List (Ended V E) × W) × ObservationStore V
    unfolding watched
    watch_all [] w s = (([], w), s)
    watch_all (c ∷ cs) w s =
        let ((x, w'), s') = watched c w s in
        let ((xs, w''), s'') = watch_all cs w' s' in ((x ∷ xs, w''), s'')

  -- Recording a call does not raise: the binding of its arguments, where they are logged, fails by
  -- TypeError at most, and the repr of an exception that the callable raised does not raise.
  pub record IsRecordable (c : Observed V E) (x : Ended V E) : Type 0 where
    pub binds : (e : E) → c.binding ≡ uncaught e → o.log_params ≡ false
    pub shows : (e e' : E) → x ≡ raised e → o.repr e ≢ raised e'

  -- the calls of a run beside the ways they ended
  abbrev pub AllRecordable : List (Observed V E) → List (Ended V E) → Type 0
  AllRecordable [] xs = Unit
  AllRecordable (c ∷ cs) [] = Unit
  AllRecordable (c ∷ cs) (x ∷ xs) = IsRecordable c x × AllRecordable cs xs

  parameters-IsRecordable :
      (c : Observed V E) (x : Ended V E)
      → IsRecordable c x
      → (ps : Dict V) × (logged_parameters o.log_params c ≡ returned ps)
  unfolding logged_parameters
  parameters-IsRecordable c x ok = elim (Bool-cases o.log_params) [
    | inr quiet ↦ ([], ground (arith, quiet))
    | inl logs ↦ elim (Binding-cases c.binding) [
      | inl (ps, e) ↦ (Dict.remove "self" ps, ground (arith, logs, e))
      | inr (inl e) ↦ (Dict.remove "self" c.kwargs, ground (arith, logs, e))
      | inr (inr (y, e)) ↦ absurd (ground (arith, logs, ok.binds y e))
    ]
  ]

  text-IsRecordable :
      (c : Observed V E) (x : Ended V E)
      → IsRecordable c x
      → (t : Option String) × (error_text o.repr x ≡ returned t)
  unfolding error_text
  text-IsRecordable c (returned v) ok = (none, refl)
  text-IsRecordable c (raised e) ok = elim (Ended-cases (o.repr e)) [
    | inl (t, h) ↦ (some t, ground (arith, h))
    | inr (e', h) ↦ absurd (ok.shows e e' refl h)
  ]

  event-IsRecordable :
      (c : Observed V E) (x : Ended V E)
      → IsRecordable c x
      → (event : ObservationEvent V) × (event_of c x ≡ returned event)
        × (event.agent_id ≡ o.agent_id)
  unfolding event_of event_with
  event-IsRecordable c x ok =
      let (ps, p) = parameters-IsRecordable c x ok in
      let (t, q) = text-IsRecordable c x ok in (event_with c x ps t, ground (arith, p, q), refl)

  module _ {W : Type 0} (func : Observed V E → W → Ended V E × W) where
    -- Where recording raises for no call of a run, the wrapper is transparent: its callers get the
    -- results and exceptions, and the callable leaves the state, as without it; and every call counts.
    pub watch_all-call_all :
        (cs : List (Observed V E)) (w : W) (s : ObservationStore V)
        → AllRecordable cs (call_all func cs w).0
        → let (seen, s') = watch_all func cs w s in
          (seen ≡ call_all func cs w)
          × ((stats_of o.agent_id s').total ≡ (stats_of o.agent_id s).total + length cs)
    unfolding watch_all call_all watched seen_by_caller recorded count
    watch_all-call_all [] w s ok = ground arith
    watch_all-call_all (c ∷ cs) w s ok =
        let (x, w') = func c w in
        let (event, made, mine) = event-IsRecordable c x ok.0 in
        ground (
          arith,
          made,
          mine,
          watch_all-call_all cs w' (record_event event s) ok.1,
          stats-record_event event o.agent_id s,
          eq_iff o.agent_id o.agent_id,
        )
