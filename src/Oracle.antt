-- ===== src/Oracle.antt =====
-- oracle/cache.py and oracle/tenors.py: the cache of observations and the tenors of the feed. Times are
-- microseconds of the monotonic clock.
pub mod Feed
pub mod Treasury
pub mod Newest
pub mod Requests
pub mod Provenance
use asset_embedding_protocol.Prelude.{
  ℕ, String, ◌≡◌, ◌↔◌, Option, none, some, [], ◌∷◌, ◌+◌, ◌*◌, ◌≤◌, ltb, if◌then◌else◌, arith, ◌≢◌,
  ◌<◌, eq_iff, ◌==◌, nat_eq, string_eq,
}
use asset_embedding_protocol.Dict
use asset_embedding_protocol.Dict.{Dict}
use asset_embedding_protocol.Dict.Laws.{get-put, get-remove}
use asset_embedding_protocol.Models.{second}

-- class _Entry
pub record Entry (T : Type 0) : Type 0 where
  pub value : T
  pub stored_at : ℕ

-- class TTLCache
pub record TtlCache (T : Type 0) : Type 0 where
  pub ttl_seconds : ℕ
  pub values : Dict (Entry T)

module _ {T : Type 0} where
  -- TTLCache.get of the entry that was found
  unfoldable pub get_entry : String → ℕ → TtlCache T → Option (Entry T) → Option T × TtlCache T
  get_entry key now c none = (none, record c { values = Dict.remove key c.values })
  get_entry key now c (some e) =
      if ltb (e.stored_at + c.ttl_seconds * second) now
      then (none, record c { values = Dict.remove key c.values })
      else (some e.value, c)

  unfoldable pub cache_get : String → ℕ → TtlCache T → Option T × TtlCache T
  unfolding get_entry
  cache_get key now c = get_entry key now c (Dict.get key c.values)

  -- TTLCache.set
  unfoldable pub cache_set : String → T → ℕ → TtlCache T → TtlCache T
  cache_set key value now c = record c {
    values = Dict.put key (record { value = value; stored_at = now }) c.values;
  }

  get-set :
      (key other : String) (value : T) (stored now : ℕ) (c : TtlCache T)
      → (cache_get other now (cache_set key value stored c)).0 ≡ (
          if key == other
          then (if ltb (stored + c.ttl_seconds * second) now then none else some value)
          else (cache_get other now c).0)
  unfolding cache_get cache_set get_entry
  get-set key other value stored now c =
      ground (arith, get-put key other (record { value = value; stored_at = stored }) c.values)

  get-get :
      (key other : String) (between now : ℕ) (c : TtlCache T)
      → key ≢ other
      → (cache_get key now (cache_get other between c).1).0 ≡ (cache_get key now c).0
  unfolding cache_get get_entry
  get-get key other between now c apart =
      ground (arith, apart, eq_iff other key, eq_iff key other, get-remove other key c.values)

  -- What was set under a key is what `get` returns for it as long as it is no older than its time to
  -- live, and nothing is afterwards; a `get` of another key in between does not change that, and the
  -- `set` does not change what `get` returns for another key.
  pub cache_get-cache_set :
      (key other : String) (value : T) (stored between now : ℕ) (c : TtlCache T)
      → key ≢ other
      → let s = cache_set key value stored c in
        ((cache_get key now (cache_get other between s).1).0 ≡ (cache_get key now s).0)
        × ((cache_get other now s).0 ≡ (cache_get other now c).0)
        × (((cache_get key now s).0 ≡ some value) ↔ (now ≤ stored + c.ttl_seconds * second))
        × (((cache_get key now s).0 ≡ none) ↔ (stored + c.ttl_seconds * second < now))
  cache_get-cache_set key other value stored between now c apart =
      let own = get-set key key value stored now c in
      let theirs = get-set key other value stored now c in
      (
        get-get key other between now (cache_set key value stored c) apart,
        ground (arith, theirs, eq_iff key other),
        (λ h. ground (arith, own, eq_iff key key), λ h. ground (arith, own, eq_iff key key)),
        (λ h. ground (arith, own, eq_iff key key), λ h. ground (arith, own, eq_iff key key)),
      )

-- TENOR_FIELDS
abbrev pub tenor_fields : Dict String
tenor_fields =
    ("1M", "BC_1MONTH")
    ∷ ("1.5M", "BC_1_5MONTH")
    ∷ ("2M", "BC_2MONTH")
    ∷ ("3M", "BC_3MONTH")
    ∷ ("4M", "BC_4MONTH")
    ∷ ("6M", "BC_6MONTH")
    ∷ ("1Y", "BC_1YEAR")
    ∷ ("2Y", "BC_2YEAR")
    ∷ []
