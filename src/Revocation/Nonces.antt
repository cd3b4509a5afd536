-- ===== src/Revocation/Nonces.antt =====
-- revocation.py: the replay cache.
use native.Mathlib.Nat.{add-zero}
use mathlib.Core.List.{append_assoc}
use asset_embedding_protocol.Prelude.{
  ℕ, ◌+◌, ◌≤◌, ◌<◌, String, ◌≡◌, ap, inl, inr, true, [], ◌∷◌, ◌++◌, arith, eq_iff, ltb, nat_eq,
  string_eq, Bool-cases, length, suc, ◌∙◌, subst, false, List, length-append, All,
}
use asset_embedding_protocol.Dict
use asset_embedding_protocol.Dict.{Dict}
use asset_embedding_protocol.Revocation.{drop_stale, drop_excess, check_nonce, RevocationStore}
use asset_embedding_protocol.Dict.Laws.{put_absent}

-- The cache holds a nonce, stored at `t`, with at most `k` entries after it.
pub record Holds (nonce : String) (t k : ℕ) (d : Dict ℕ) : Type 0 where
  pub before : Dict ℕ
  pub behind : Dict ℕ
  pub split : d ≡ before ++ (nonce, t) ∷ behind
  pub few : length behind ≤ k

Holds-cons :
    {nonce : String} {t k : ℕ} {d : Dict ℕ} (x : String × ℕ)
    → Holds nonce t k d
    → Holds nonce t k (x ∷ d)
Holds-cons x h = record {
  before = x ∷ h.before;
  behind = h.behind;
  split = ap (◌∷◌ x) h.split;
  few = h.few;
}

drop_stale_keeps :
    (nonce : String) (t now ttl : ℕ) (before behind : Dict ℕ)
    → now < t + ttl
    → (rest : Dict ℕ) × (drop_stale now ttl (before ++ (nonce, t) ∷ behind)
        ≡ rest ++ (nonce, t) ∷ behind)
unfolding drop_stale
drop_stale_keeps nonce t now ttl [] behind h = ([], ground arith)
drop_stale_keeps nonce t now ttl ((m, u) ∷ before) behind h =
    elim (Bool-cases (ltb now (u + ttl))) [
      | inl fresh ↦ ((m, u) ∷ before, rw fresh)
      | inr stale ↦
          let (rest, e) = drop_stale_keeps nonce t now ttl before behind h in (rest, rw stale e)
    ]

drop_excess_keeps :
    (nonce : String) (t cap : ℕ) (before behind : Dict ℕ)
    → length behind < cap
    → (rest : Dict ℕ) × (drop_excess cap (before ++ (nonce, t) ∷ behind)
        ≡ rest ++ (nonce, t) ∷ behind)
unfolding drop_excess
drop_excess_keeps nonce t cap [] behind h = ([], ground arith)
drop_excess_keeps nonce t cap (x ∷ before) behind h =
    elim (Bool-cases (ltb cap (length (x ∷ before ++ (nonce, t) ∷ behind)))) [
      | inl over ↦
          let (rest, e) = drop_excess_keeps nonce t cap before behind h in (rest, rw over e)
      | inr fits ↦ (x ∷ before, rw fits)
    ]

has_held :
    (nonce : String) (t : ℕ) (before behind : Dict ℕ)
    → Dict.has nonce (before ++ (nonce, t) ∷ behind) ≡ true
unfolding Dict.get
has_held nonce t [] behind = ground (arith, eq_iff nonce nonce)
has_held nonce t ((m, u) ∷ before) behind = ground (arith, has_held nonce t before behind)

pub max_nonces-check_nonce :
    (nonce : String) (ttl now stored : ℕ) (s : RevocationStore)
    → (check_nonce nonce ttl now stored s).1.max_nonces ≡ s.max_nonces
unfolding check_nonce
max_nonces-check_nonce nonce ttl now stored s = ground arith

-- A nonce that is new goes in as the youngest entry.
pub accepted-Holds :
    (nonce : String) (ttl now stored : ℕ) (s : RevocationStore)
    → 0 < s.max_nonces
    → (check_nonce nonce ttl now stored s).0 ≡ true
    → Holds nonce stored 0 (check_nonce nonce ttl now stored s).1.nonces
unfolding check_nonce
accepted-Holds nonce ttl now stored s room accepted =
    let kept = drop_stale now ttl s.nonces in
    elim (Bool-cases (Dict.has nonce kept)) [
      | inl used ↦ absurd (ground arith)
      | inr new ↦
          let (rest, e) = drop_excess_keeps nonce stored s.max_nonces kept [] room in
          record {
            before = rest;
            behind = [];
            split = rw new (rw (put_absent nonce stored kept new) e);
            few = omega arith;
          }
    ]

-- Checking a nonce keeps a younger entry in the cache, with at most one more entry after it.
pub check_nonce-Holds :
    (held : String) (t k : ℕ) (nonce : String) (ttl now stored : ℕ) (s : RevocationStore)
    → now < t + ttl
    → suc k < s.max_nonces
    → Holds held t k s.nonces
    → Holds held t (suc k) (check_nonce nonce ttl now stored s).1.nonces
unfolding check_nonce
check_nonce-Holds held t k nonce ttl now stored s fresh room h =
    let kept = drop_stale now ttl s.nonces in
    let (rest, e) = drop_stale_keeps held t now ttl h.before h.behind fresh in
    let e' : kept ≡ rest ++ (held, t) ∷ h.behind = ap (drop_stale now ttl) h.split ∙ e in
    elim (Bool-cases (Dict.has nonce kept)) [
      | inl used ↦ record {
        before = rest;
        behind = h.behind;
        split = rw used e';
        few = omega (arith, h.few);
      }
      | inr new ↦
          let behind' = h.behind ++ (nonce, stored) ∷ [] in
          let longer = length-append h.behind ((nonce, stored) ∷ []) in
          let (rest', x) =
            drop_excess_keeps held t s.max_nonces rest behind' (omega (arith, longer, h.few)) in
          record {
            before = rest';
            behind = behind';
            split = rw new (
                rw (put_absent nonce stored kept new) (
                  ap (λ d. drop_excess s.max_nonces (d ++ (nonce, stored) ∷ [])) e'
                  ∙ (ap (drop_excess s.max_nonces)
                        (append_assoc rest ((held, t) ∷ h.behind) ((nonce, stored) ∷ []))
                      ∙ x)));
            few = omega (arith, longer, h.few);
          }
    ]

pub held-refused :
    (nonce : String) (t k ttl now stored : ℕ) (s : RevocationStore)
    → now < t + ttl
    → Holds nonce t k s.nonces
    → (check_nonce nonce ttl now stored s).0 ≡ false
unfolding check_nonce
held-refused nonce t k ttl now stored s fresh h =
    let (rest, e) = drop_stale_keeps nonce t now ttl h.before h.behind fresh in
    ground (arith, h.split, e, has_held nonce t rest h.behind)

-- a call of check_nonce, with its clock readings
pub record Check : Type 0 where
  pub nonce : String
  pub now : ℕ
  pub stored : ℕ

unfoldable pub check_all : ℕ → List Check → RevocationStore → RevocationStore
check_all ttl [] s = s
check_all ttl (c ∷ cs) s = check_all ttl cs (check_nonce c.nonce ttl c.now c.stored s).1

check_all-Holds :
    (held : String) (t k ttl : ℕ) (cs : List Check) (s : RevocationStore)
    → All (λ c. c.now < t + ttl) cs
    → k + length cs < s.max_nonces
    → Holds held t k s.nonces
    → Holds held t (k + length cs) (check_all ttl cs s).nonces
unfolding check_all
check_all-Holds held t k ttl [] s early room h = rw add-zero h
check_all-Holds held t k ttl (c ∷ cs) s early room h =
    let same = max_nonces-check_nonce c.nonce ttl c.now c.stored s in
    let next =
      check_all-Holds held t (suc k) ttl cs (check_nonce c.nonce ttl c.now c.stored s).1 early.1
        (omega (arith, same))
        (check_nonce-Holds held t k c.nonce ttl c.now c.stored s early.0 (omega arith) h) in
    let e : suc k + length cs ≡ k + length (c ∷ cs) = omega arith in
    subst (λ n. Holds held t n (check_all ttl (c ∷ cs) s).nonces) e next

-- A nonce that `check_nonce` has accepted is refused from then on until its time to live has run out,
-- whatever other checks come in between, as long as they are fewer than the cache's capacity.
pub replay_refused :
    (nonce : String) (ttl now stored : ℕ) (s : RevocationStore) (between : List Check)
    (now' stored' : ℕ)
    → (check_nonce nonce ttl now stored s).0 ≡ true
    → All (λ c. c.now < stored + ttl) between
    → length between < s.max_nonces
    → now' < stored + ttl
    → (check_nonce nonce ttl now' stored'
        (check_all ttl between (check_nonce nonce ttl now stored s).1)).0
      ≡ false
replay_refused nonce ttl now stored s between now' stored' accepted early few fresh =
    let s' = (check_nonce nonce ttl now stored s).1 in
    let same = max_nonces-check_nonce nonce ttl now stored s in
    held-refused nonce stored (0 + length between) ttl now' stored' (check_all ttl between s') fresh
      (check_all-Holds nonce stored 0 ttl between s' early (omega (arith, same))
        (accepted-Holds nonce ttl now stored s (omega arith) accepted))

length-drop_excess-le : (cap : ℕ) (d : Dict ℕ) → length (drop_excess cap d) ≤ cap
unfolding drop_excess
length-drop_excess-le cap [] = omega arith
length-drop_excess-le cap (x ∷ d) = ground (arith, length-drop_excess-le cap d)

length-drop_stale-le : (now ttl : ℕ) (d : Dict ℕ) → length (drop_stale now ttl d) ≤ length d
unfolding drop_stale
length-drop_stale-le now ttl [] = omega arith
length-drop_stale-le now ttl ((m, u) ∷ d) = ground (arith, length-drop_stale-le now ttl d)

-- A check of a nonce leaves a cache that holds no more nonces than its capacity within its capacity.
pub check_nonce_bounded :
    (nonce : String) (ttl now stored : ℕ) (s : RevocationStore)
    → length s.nonces ≤ s.max_nonces
    → length (check_nonce nonce ttl now stored s).1.nonces
      ≤ (check_nonce nonce ttl now stored s).1.max_nonces
unfolding check_nonce
check_nonce_bounded nonce ttl now stored s h =
    let kept = drop_stale now ttl s.nonces in
    ground (
      arith,
      length-drop_stale-le now ttl s.nonces,
      length-drop_excess-le s.max_nonces (Dict.put nonce stored kept),
    )
