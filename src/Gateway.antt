-- ===== src/Gateway.antt =====
-- gateway/keys.py, gateway/attestations.py and gateway/auth.py: the registries that the control plane
-- writes, and the administrator's credential. Decoding a key and comparing two texts are the platform's.
pub mod Site
pub mod Intent
pub mod Admin
pub mod Sync
pub mod Serve
pub mod Frames
pub mod Allowed
pub mod Kept
pub mod Barred
pub mod Revoked
pub mod Denied
pub mod Bound
pub mod Reachable
use asset_embedding_protocol.Prelude.{
  ℕ, String, ◌≡◌, ◌↔◌, Option, none, some, List, [], ◌∷◌, ◌++◌, Bool, true, false, if◌then◌else◌,
  arith, sym, ap, ◌∙◌, inl, inr, eq_iff, nat_eq, string_eq, Option-cases, length, contains, zero,
  suc, ◌+◌, ◌-◌, ◌*◌, ◌/◌, ◌%◌, ◌^◌, ◌≤◌, ◌<◌, refl, subst, ◌≢◌, ◌⊎◌, not, ◌&&◌, ◌||◌, map, ltb,
  leb, ltb→lt, leb→le, tests, Eq, ◌==◌, Bool-cases, &&_true, length-append, is_nonempty, All,
  All-append, All-map, subset, Among, contains-Among, Among-contains, contains-subset,
  subset-nonempty,
}
use asset_embedding_protocol.Dict
use asset_embedding_protocol.Dict.{Dict}
use asset_embedding_protocol.Dict.Laws.{get-put}
use asset_embedding_protocol.Boundaries.{truthy}
use Prim.Native.Char.{code}

-- How AgentKeyRegistry.register ends: it returns, or raises for a text that is no key or for an agent
-- that has one.
pub data Registration : Type 0 where
  registered malformed_key agent_already_registered : Registration

module _ {Key : Type 0} (b64_to_public_key : String → Option Key) where
  -- AgentKeyRegistry.register
  unfoldable pub register : String → String → Dict Key → Registration × Dict Key
  register agent public_key_b64 keys = elim (b64_to_public_key public_key_b64) [
    | none ↦ (malformed_key, keys)
    | some key ↦
        if Dict.has agent keys
        then (agent_already_registered, keys)
        else (registered, Dict.put agent key keys)
  ]

  pub register_keeps :
      (agent other text : String) (key : Key) (keys : Dict Key)
      → Dict.get agent keys ≡ some key
      → Dict.get agent (register other text keys).1 ≡ some key
  unfolding register
  register_keeps agent other text key keys h = elim (Option-cases (b64_to_public_key text)) [
    | inl malformed ↦ ground arith
    | inr (k, e) ↦ elim (Option-cases (Dict.get other keys)) [
      | inl new ↦ ground (arith, e, new, get-put other agent k keys, eq_iff other agent)
      | inr (held, g) ↦ ground (arith, e, g)
    ]
  ]

-- AgentKeyRegistry.get and __len__
unfoldable pub key_of : {Key : Type 0} → String → Dict Key → Option Key
key_of agent keys = Dict.get agent keys

unfoldable pub key_count : {Key : Type 0} → Dict Key → ℕ
key_count keys = length keys

-- class AttestationRegistry
pub record AttestationRegistry : Type 0 where
  pub frameworks : List String
  pub build_hashes : Dict String
  pub prompt_hashes : Dict String

unfoldable pub register_framework : String → AttestationRegistry → AttestationRegistry
register_framework framework_id r = record r {
  frameworks =
      if contains framework_id r.frameworks
      then r.frameworks
      else r.frameworks ++ framework_id ∷ [];
}

unfoldable pub register_build_hash : String → String → AttestationRegistry → AttestationRegistry
register_build_hash framework_id build_hash r = record r {
  build_hashes = Dict.put framework_id build_hash r.build_hashes;
}

unfoldable pub register_prompt_hash : String → String → AttestationRegistry → AttestationRegistry
register_prompt_hash agent_id system_prompt_hash r = record r {
  prompt_hashes = Dict.put agent_id system_prompt_hash r.prompt_hashes;
}

-- Are a text's characters all ASCII?
unfoldable pub is_ascii : String → Bool
is_ascii String.[] = true
is_ascii (String.◌∷◌ c s) = ltb (code c) 128 && is_ascii s

-- How require_admin refuses: by an HTTPException, or by the TypeError of hmac.compare_digest.
pub data Refusal : Type 0 where
  refused_with : ℕ → Refusal
  type_error : Refusal

-- what is raised for a comparison with the configured key
abbrev pub refusal_of : Option Bool → Option Refusal
refusal_of none = some type_error
refusal_of (some true) = none
refusal_of (some false) = some (refused_with 401)

-- require_admin: `none` where it returns. The comparison is hmac.compare_digest, `none` where it raises.
unfoldable pub require_admin :
    (String → String → Option Bool) → Option String → Option String → Option Refusal
unfolding truthy
require_admin compare configured presented = elim (truthy configured) [
  | none ↦ some (refused_with 503)
  | some key ↦ elim presented [
    | none ↦ some (refused_with 401)
    | some given ↦ refusal_of (compare given key)
  ]
]

-- What hmac.compare_digest documents of texts: it compares ASCII ones exactly, and raises for others.
pub record ComparesAscii (compare : String → String → Option Bool) : Type 0 where
  pub exact :
      (a b : String)
      → is_ascii a ≡ true
      → is_ascii b ≡ true
      → (equal : Bool) × (compare a b ≡ some equal) × ((equal ≡ true) ↔ (a ≡ b))
  pub raises : (a b : String) → (is_ascii a && is_ascii b) ≡ false → compare a b ≡ none

refusal_of-cases :
    (x : Option Bool)
    → ((refusal_of x ≡ none) ↔ (x ≡ some true))
      × (refusal_of x ≢ some (refused_with 503))
      × ((refusal_of x ≡ some type_error) ↔ (x ≡ none))
refusal_of-cases none = ground arith
refusal_of-cases (some true) = ground arith
refusal_of-cases (some false) = ground arith

module _ (compare : String → String → Option Bool) (ok : ComparesAscii compare) where
  compare_equal : (a b : String) → (compare a b ≡ some true) ↔ ((a ≡ b) × (is_ascii b ≡ true))
  compare_equal a b = elim (Bool-cases (is_ascii a && is_ascii b)) [
    | inr wild ↦ (
      λ h. absurd (ground (arith, ok.raises a b wild, h)),
      λ h. absurd (ground (arith, wild, ap is_ascii h.0, h.1)),
    )
    | inl plain ↦
        let (equal, e, i) = ok.exact a b (ground (arith, plain)) (ground (arith, plain)) in
        (λ h. (i.0 (ground (arith, e, h)), ground (arith, plain)), λ h. ground (arith, e, i.1 h.0))
  ]

  compare_raises : (a b : String) → (compare a b ≡ none) ↔ ((is_ascii a && is_ascii b) ≡ false)
  compare_raises a b = elim (Bool-cases (is_ascii a && is_ascii b)) [
    | inr wild ↦ (λ h. wild, λ h. ok.raises a b wild)
    | inl plain ↦
        let (equal, e, i) = ok.exact a b (ground (arith, plain)) (ground (arith, plain)) in
        (λ h. absurd (ground (arith, e, h)), λ h. absurd (ground (arith, plain, h)))
  ]

  pub require_admin_fails_closed :
      (configured : Option String) (given : String)
      → ((require_admin compare configured (some given) ≡ none)
          ↔ ((truthy configured ≡ some given) × (is_ascii given ≡ true)))
        × ((require_admin compare configured (some given) ≡ some (refused_with 503))
            ↔ (truthy configured ≡ none))
        × ((require_admin compare configured (some given) ≡ some type_error) ↔ (
            (key : String) × (truthy configured ≡ some key)
            × ((is_ascii given && is_ascii key) ≡ false)))
        × (require_admin compare configured none ≢ none)
  unfolding require_admin
  require_admin_fails_closed configured given = elim (Option-cases (truthy configured)) [
    | inl absent ↦ (
      (λ h. absurd (ground (arith, absent, h)), λ h. absurd (ground (arith, absent, h.0))),
      (λ h. absent, λ h. ground (arith, absent)),
      (λ h. absurd (ground (arith, absent, h)), λ h. absurd (ground (arith, absent, h.1))),
      λ h. absurd (ground (arith, absent, h)),
    )
    | inr (key, e) ↦
        let r = refusal_of-cases (compare given key) in
        let here : require_admin compare configured (some given) ≡ refusal_of (compare given key) =
          ground (arith, e) in
        let held = compare_equal given key in
        let wild = compare_raises given key in
        (
          (
            λ h.
                let (same, plain) = held.0 (r.0.0 (sym here ∙ h)) in
                (e ∙ ap some (sym same), ap is_ascii same ∙ plain),
            λ h.
                let equal : some key ≡ some given = sym e ∙ h.0 in
                let same : given ≡ key = cc in
                here ∙ r.0.1 (held.1 (same, sym (ap is_ascii same) ∙ h.1)),
          ),
          (λ h. absurd (r.1 (sym here ∙ h)), λ h. absurd (ground (arith, e, h))),
          (
            λ h. (key, e, wild.0 (r.2.0 (sym here ∙ h))),
            λ h.
                let equal : some key ≡ some h.0 = sym e ∙ h.1 in
                let same : h.0 ≡ key = cc in
                here
                ∙ r.2.1 (wild.1 (subst (λ x. (is_ascii given && is_ascii x) ≡ false) same h.2)),
          ),
          λ h. absurd (ground (arith, e, h)),
        )
  ]
