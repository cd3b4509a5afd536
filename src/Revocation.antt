-- ===== src/Revocation.antt =====
-- custos_protocol/revocation.py: the kill switch and the replay cache. Each method takes the clock's
-- readings as arguments: `datetime.now` and `time.monotonic`, both in microseconds.
pub mod KillSwitch
pub mod Nonces
use asset_embedding_protocol.Prelude.{
  ℕ, zero, suc, ◌+◌, ◌-◌, ◌*◌, ◌/◌, ◌%◌, ◌^◌, ◌≤◌, ◌<◌, String, ◌≡◌, refl, sym, ap, ◌∙◌, subst, ◌≢◌,
  ◌↔◌, ◌⊎◌, inl, inr, Bool, true, false, not, ◌&&◌, ◌||◌, Option, none, some, List, [], ◌∷◌, ◌++◌,
  map, arith, eq_iff, ltb, leb, if◌then◌else◌, ltb→lt, leb→le, tests, Eq, ◌==◌, nat_eq, string_eq,
  Bool-cases, Option-cases, &&_true, length, length-append, is_nonempty, All, All-append, All-map,
  contains, subset, Among, contains-Among, Among-contains, contains-subset, subset-nonempty,
}
use asset_embedding_protocol.Prelude.Int.{ℤ, pos, negsuc, pos_part, neg_part, sub_ℕ, ltb_ℤ}
use asset_embedding_protocol.Dict
use asset_embedding_protocol.Dict.{Dict}
use asset_embedding_protocol.Models.{RevocationCheck, not_revoked, second}
use asset_embedding_protocol.Number.{Float}

pub data SubjectType : Type 0 where
  agent issuer : SubjectType

-- class RevocationRecord
pub record RevocationRecord : Type 0 where
  pub subject_id : String
  pub subject_type : SubjectType
  pub reason : String
  pub revoked_at : ℕ
  pub revoked_by : String
  pub scope : String
  pub suspended_until : Option ℕ

-- class RevocationStore; `nonces` in the order of insertion
pub record RevocationStore : Type 0 where
  pub records : Dict RevocationRecord
  pub nonces : Dict ℕ
  pub local_only : Bool
  pub max_nonces : ℕ
  pub last_sync : ℕ

abbrev pub max_nonce_cache : ℕ
max_nonce_cache = 1_000_000

abbrev pub default_nonce_ttl : ℕ
default_nonce_ttl = 86_400 * second

-- RevocationStore()
abbrev pub new_store : ℕ → RevocationStore
new_store now = record {
  records = [];
  nonces = [];
  local_only = true;
  max_nonces = max_nonce_cache;
  last_sync = now;
}

-- the first moment after datetime.max, which is the end of day 3652059
abbrev datetime_end : ℕ
datetime_end = 3652059 * (86400 * second)

-- now + timedelta(seconds=n), `none` where OverflowError is raised
unfoldable pub after : ℕ → ℤ → Option ℕ
after now n =
    let up = now + pos_part n * second in
    let down = neg_part n * second in
    if leb down up && ltb (up - down) datetime_end then some (up - down) else none

unfoldable pub revoke :
    String → SubjectType → String → String → String → ℕ → ℕ → RevocationStore → RevocationStore
revoke subject kind reason revoked_by scope now synced s = record s {
  records =
      Dict.put subject
        (record {
          subject_id = subject;
          subject_type = kind;
          reason = reason;
          revoked_at = now;
          revoked_by = revoked_by;
          scope = scope;
          suspended_until = none;
        })
        s.records;
  last_sync = synced;
}

-- the store with a suspension until `end_at`
unfoldable pub suspend_until :
    String → SubjectType → String → String → String → ℕ → ℕ → ℕ → RevocationStore → RevocationStore
suspend_until subject kind reason revoked_by scope now end_at synced s = record s {
  records =
      Dict.put subject
        (record {
          subject_id = subject;
          subject_type = kind;
          reason = reason;
          revoked_at = now;
          revoked_by = revoked_by;
          scope = scope;
          suspended_until = some end_at;
        })
        s.records;
  last_sync = synced;
}

-- suspend, `none` where the end of the suspension overflows; nothing is stored then
unfoldable pub suspend :
    String
    → SubjectType
    → ℤ
    → String
    → String
    → String
    → ℕ
    → ℕ
    → ℕ
    → RevocationStore
    → Option RevocationStore
suspend subject kind duration_seconds reason revoked_by scope now start synced s =
    elim (after start duration_seconds) [
      | none ↦ none
      | some end_at ↦ some (suspend_until subject kind reason revoked_by scope now end_at synced s)
    ]

-- record.suspended_until is not None and record.suspended_until <= now
unfoldable pub lapsed : RevocationRecord → ℕ → Bool
lapsed r now = elim r.suspended_until [ none ↦ false | some t ↦ leb t now ]

-- _live_record of a record that was found
unfoldable pub live_of :
    String
    → ℕ
    → RevocationStore
    → Option RevocationRecord
    → Option RevocationRecord × RevocationStore
unfolding lapsed
live_of subject now s none = (none, s)
live_of subject now s (some r) =
    if lapsed r now
    then (none, record s { records = Dict.remove subject s.records })
    else (some r, s)

-- _live_record, which drops a suspension that has lapsed
unfoldable pub live_record :
    String → ℕ → RevocationStore → Option RevocationRecord × RevocationStore
unfolding live_of
live_record subject now s = live_of subject now s (Dict.get subject s.records)

unfoldable pub is_revoked : String → ℕ → RevocationStore → Bool × RevocationStore
unfolding live_record
is_revoked subject now s = let (r, s') = live_record subject now s in (Dict.is_some r, s')

-- record is not None and record.suspended_until is not None
abbrev pub has_end : Option RevocationRecord → Bool
has_end none = false
has_end (some r) = Dict.is_some r.suspended_until

unfoldable pub is_suspended : String → ℕ → RevocationStore → Bool × RevocationStore
unfolding live_record
is_suspended subject now s = let (r, s') = live_record subject now s in (has_end r, s')

unfoldable pub reinstate : String → ℕ → RevocationStore → Bool × RevocationStore
reinstate subject synced s = (
  Dict.has subject s.records,
  record s { records = Dict.remove subject s.records; last_sync = synced },
)

unfoldable pub get_record : String → ℕ → RevocationStore → Option RevocationRecord × RevocationStore
unfolding live_record
get_record subject now s = live_record subject now s

unfoldable pub revocation_count : RevocationStore → ℕ
revocation_count s = length s.records

unfoldable pub touch_sync : ℕ → RevocationStore → RevocationStore
touch_sync synced s = record s { last_sync = synced }

-- `age_ms` is total_seconds() * 1000
unfoldable pub freshness : {F : Type 0} ⦃f : Float F⦄ → ℕ → ℕ → RevocationStore → RevocationCheck F
freshness ⦃f = f⦄ max_staleness_ms now s =
    let age_ms = f.mul (f.total_seconds (sub_ℕ now s.last_sync)) (f.of_int (pos 1000)) in
    record {
      status = not_revoked;
      freshness_ms = age_ms;
      max_staleness_ms = max_staleness_ms;
      stale = not s.local_only && f.lt (f.of_int (pos max_staleness_ms)) age_ms;
    }

-- the first loop of check_nonce: `stored_at > now - ttl` stops it
unfoldable pub drop_stale : ℕ → ℕ → Dict ℕ → Dict ℕ
drop_stale now ttl [] = []
drop_stale now ttl ((nonce, stored_at) ∷ rest) =
    let dropped = drop_stale now ttl rest in
    if ltb now (stored_at + ttl) then (nonce, stored_at) ∷ rest else dropped

-- the second loop: the oldest go while there are too many
unfoldable pub drop_excess : ℕ → Dict ℕ → Dict ℕ
drop_excess max_nonces [] = []
drop_excess max_nonces (x ∷ rest) =
    let dropped = drop_excess max_nonces rest in
    if ltb max_nonces (length (x ∷ rest)) then dropped else x ∷ rest

-- check_nonce: `now` is the clock at the cutoff, `stored` where the nonce is stored
unfoldable pub check_nonce : String → ℕ → ℕ → ℕ → RevocationStore → Bool × RevocationStore
check_nonce nonce ttl now stored s =
    let kept = drop_stale now ttl s.nonces in
    if Dict.has nonce kept
    then (false, record s { nonces = kept })
    else (true, record s { nonces = drop_excess s.max_nonces (Dict.put nonce stored kept) })

unfoldable pub clear_nonces : RevocationStore → RevocationStore
clear_nonces s = record s { nonces = [] }
