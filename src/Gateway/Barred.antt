-- ===== src/Gateway/Barred.antt =====
-- Requests that leave a permanent revocation in place.
use asset_embedding_protocol.Prelude.{
  ℕ, String, ◌≡◌, refl, sym, subst, Bool, true, false, some, inl, inr, Bool-cases, arith, nat_eq,
  string_eq, ◌==◌, ◌&&◌, eq_iff, ◌⊎◌, Option-cases,
}
use asset_embedding_protocol.Number.{Float, Decimal}
use asset_embedding_protocol.Verification.Permanent.{verify_intent-Banned}
use asset_embedding_protocol.Dict.Laws.{get-put, get-remove}
use asset_embedding_protocol.Gateway.Serve.{revocation, reinstatement, AdminRequest}
use asset_embedding_protocol.Gateway.Admin.{apply_action, RevocationRequest}
use asset_embedding_protocol.Revocation.{
  after, revoke, suspend, RevocationStore, SubjectType, reinstate, suspend_until,
}
use asset_embedding_protocol.Gateway.Site.{Moment, Site, Gateway}
use asset_embedding_protocol.Verification.Permanent.{Banned, verify_intent-Banned}
use asset_embedding_protocol.Prelude.Int.{ℤ}
use asset_embedding_protocol.Gateway.Kept.{IsKept}
use asset_embedding_protocol.Revocation.{after}

-- Does a request of the administrator take a subject's permanent revocation away?
abbrev pub lifts : String → AdminRequest → Bool
lifts subject (revocation q) = (q.subject_id == subject) && (q.action == "suspend")
lifts subject (reinstatement other) = other == subject
lifts subject q = false

revoke-Banned :
    (subject other : String) (kind : SubjectType) (reason by scope : String) (now synced : ℕ)
    (s : RevocationStore)
    → (other ≡ subject) ⊎ Banned subject s
    → Banned subject (revoke other kind reason by scope now synced s)
unfolding revoke
revoke-Banned subject other kind reason by scope now synced s (inl same) =
    rw get-put (ground (arith, same, eq_iff other subject))
revoke-Banned subject other kind reason by scope now synced s (inr h) = rw get-put (ground arith)

suspend_until-Banned :
    (subject other : String) (kind : SubjectType) (reason by scope : String) (now end_at synced : ℕ)
    (s : RevocationStore)
    → (other == subject) ≡ false
    → Banned subject s
    → Banned subject (suspend_until other kind reason by scope now end_at synced s)
unfolding suspend_until
suspend_until-Banned subject other kind reason by scope now end_at synced s apart h =
    rw get-put (ground arith)

suspend-Banned :
    (subject other : String) (kind : SubjectType) (duration : ℤ) (reason by scope : String)
    (now start synced : ℕ) (s : RevocationStore)
    → (other == subject) ≡ false
    → Banned subject s
    → (t : RevocationStore)
    → suspend other kind duration reason by scope now start synced s ≡ some t
    → Banned subject t
unfolding suspend
suspend-Banned subject other kind duration reason by scope now start synced s apart h t e =
    elim (Option-cases (after start duration)) [
      | inl over ↦ absurd (ground (arith, over, e))
      | inr (end_at, x) ↦
          let end_store = suspend_until other kind reason by scope now end_at synced s in
          let same : some end_store ≡ some t = ground (arith, x, e) in
          let equal : end_store ≡ t = cc in
          subst (Banned subject) equal
            (suspend_until-Banned subject other kind reason by scope now end_at synced s apart h)
    ]

apply_action-Banned :
    (subject : String) (m : Moment) (q : RevocationRequest) (s t : RevocationStore)
    → lifts subject (revocation q) ≡ false
    → apply_action m q s ≡ some t
    → Banned subject s
    → Banned subject t
unfolding apply_action
apply_action-Banned subject m q s t spared e h =
    let revoked =
      revoke q.subject_id q.subject_type q.reason "admin" "global" m.revoked_at m.synced_at s in
    let by_revocation : Banned subject revoked =
      revoke-Banned subject q.subject_id q.subject_type q.reason "admin" "global" m.revoked_at
        m.synced_at s (inr h) in
    elim (Bool-cases (q.action == "suspend")) [
      | inl suspending ↦
          suspend-Banned subject q.subject_id q.subject_type q.duration_seconds q.reason "admin"
            "global" m.revoked_at m.suspended_from m.synced_at s
            (ground (arith, suspending, spared)) h t (ground (arith, suspending, e))
      | inr other ↦ elim (Bool-cases (q.action == "revoke")) [
        | inl revoking ↦
            let same : some revoked ≡ some t = ground (arith, other, revoking, e) in
            let equal : revoked ≡ t = cc in subst (Banned subject) equal by_revocation
        | inr neither ↦ absurd (ground (arith, other, neither, e))
      ]
    ]

pub apply_action-revokes :
    (m : Moment) (q : RevocationRequest) (s : RevocationStore)
    → q.action ≡ "revoke"
    → (t : RevocationStore) × (apply_action m q s ≡ some t) × Banned q.subject_id t
unfolding apply_action
apply_action-revokes m q s r =
    let other : (q.action == "suspend") ≡ false =
      subst (λ x. (x == "suspend") ≡ false) (sym r) refl in
    let this : (q.action == "revoke") ≡ true = subst (λ x. (x == "revoke") ≡ true) (sym r) refl in
    let t =
      revoke q.subject_id q.subject_type q.reason "admin" "global" m.revoked_at m.synced_at s in
    (
      t,
      ground (arith, other, this),
      revoke-Banned q.subject_id q.subject_id q.subject_type q.reason "admin" "global" m.revoked_at
          m.synced_at s (inl refl),
    )

-- Is the subject banned by the gateway's store?
abbrev pub Bars : {F D Key S : Type 0} → String → Gateway F D Key S → Type 0
Bars subject g = Banned subject g.state.store

reinstate-Banned :
    (subject other : String) (synced : ℕ) (s : RevocationStore)
    → lifts subject (reinstatement other) ≡ false
    → Banned subject s
    → Banned subject (reinstate other synced s).1
unfolding reinstate
reinstate-Banned subject other synced s spared h =
    ground (arith, h, spared, get-remove other subject s.records)

pub Banned-IsKept :
    {F D Key PrivateKey S : Type 0} ⦃f : Float F⦄ ⦃d : Decimal D F⦄
    (site : Site F D Key PrivateKey S) (subject : String)
    → IsKept site (Banned subject) (λ q. lifts subject q ≡ false)
Banned-IsKept site subject = record {
  verified = λ a r st h. verify_intent-Banned site.platform a r subject st h;
  acted = apply_action-Banned subject;
  reinstated = reinstate-Banned subject;
}
