-- ===== src/Tests/Services.antt =====
-- Examples of the cache of observations, the registries, the administrator's key and the observations.
use asset_embedding_protocol.Prelude.{
  ℕ, ◌≡◌, refl, none, some, [], ◌∷◌, String, Option, arith, ◌↔◌, true, false, ◌+◌, ◌*◌, ◌≤◌, ◌==◌,
  string_eq, eq_iff, ◌<◌, ◌≢◌, Bool, map, nat_eq, ◌&&◌, if◌then◌else◌,
}
use asset_embedding_protocol.Dict
use asset_embedding_protocol.Dict.{Dict}
use asset_embedding_protocol.Text.{strip, upper, split_commas, codes}
use asset_embedding_protocol.Models.{second}
use asset_embedding_protocol.Boundaries.{truthy}
use asset_embedding_protocol.Oracle.{TtlCache, cache_get, cache_set, cache_get-cache_set}
use asset_embedding_protocol.Gateway.{
  require_admin, require_admin_fails_closed, ComparesAscii, is_ascii, refused_with, type_error,
}
use asset_embedding_protocol.Observe.{
  ObservationEvent, ObservationStore, record_all, stats_of, tally, stats-record_all,
}

split_example :
    map (λ p. upper (strip p)) (split_commas (codes "us, ca,")) ≡ codes "US" ∷ codes "CA" ∷ [] ∷ []
unfolding split_commas strip upper
split_example = refl

abbrev empty_cache : TtlCache ℕ
empty_cache = record { ttl_seconds = 60; values = [] }

bills-bonds : let bills : String = "3M" in bills ≢ "2Y"
bills-bonds e = absurd (ground (arith, eq_iff "3M" "2Y", e))

cache_get-cache_set_example :
    let s = cache_set "3M" 500 0 empty_cache in
    let key : String = "3M" in
    ((cache_get key 9 (cache_get "2Y" 7 s).1).0 ≡ (cache_get key 9 s).0)
    × ((cache_get "2Y" 9 s).0 ≡ (cache_get "2Y" 9 empty_cache).0)
    × (((cache_get key 9 s).0 ≡ some 500) ↔ (9 ≤ 0 + empty_cache.ttl_seconds * second))
    × (((cache_get key 9 s).0 ≡ none) ↔ (0 + empty_cache.ttl_seconds * second < 9))
cache_get-cache_set_example = cache_get-cache_set "3M" "2Y" 500 0 7 9 empty_cache bills-bonds

abbrev keys : Dict ℕ
keys = ("agent", 7) ∷ []

bound : Dict.get "agent" keys ≡ some 7
unfolding Dict.get
bound = refl

abbrev compare_digest : String → String → Option Bool
compare_digest a b = if is_ascii a && is_ascii b then some (a == b) else none

compares_ascii : ComparesAscii compare_digest
compares_ascii = record {
  exact = λ a b p q. (a == b, ground (arith, p, q), string_eq.beq_iff a b);
  raises = λ a b h. ground (arith, h);
}

require_admin_fails_closed_example :
    let key : Option String = some "schlüssel" in
    let given : String = "schlüssel" in
    ((require_admin compare_digest key (some given) ≡ none)
      ↔ ((truthy key ≡ some given) × (is_ascii given ≡ true)))
    × ((require_admin compare_digest key (some given) ≡ some (refused_with 503))
        ↔ (truthy key ≡ none))
    × ((require_admin compare_digest key (some given) ≡ some type_error)
        ↔ ((k : String) × (truthy key ≡ some k) × ((is_ascii given && is_ascii k) ≡ false)))
    × (require_admin compare_digest key none ≢ none)
require_admin_fails_closed_example =
    require_admin_fails_closed compare_digest compares_ascii (some "schlüssel") "schlüssel"

abbrev event : ObservationEvent ℕ
event = record {
  agent_id = "agent";
  agent_name = "agent";
  action = "trade";
  parameters = [];
  result = none;
  error = none;
  success = true;
  timestamp = "";
  latency = 1;
  caller = none;
  event_id = "1";
}

abbrev failed_event : ObservationEvent ℕ
failed_event = record event { success = false; error = some "ValueError()" }

-- a ring buffer of one event
abbrev observations : ObservationStore ℕ
observations = record { events = []; maxlen = 1; stats = [] }

stats-record_all_example :
    let s = observations in
    let es = event ∷ failed_event ∷ [] in
    let before = stats_of "agent" s in
    let after = stats_of "agent" (record_all es s) in
    (after.success ≡ before.success + tally "agent" true es)
    × (after.errors ≡ before.errors + tally "agent" false es)
    × (after.total ≡ before.total + (tally "agent" true es + tally "agent" false es))
stats-record_all_example = stats-record_all "agent" (event ∷ failed_event ∷ []) observations
