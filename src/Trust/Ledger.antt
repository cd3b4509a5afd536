-- ===== src/Trust/Ledger.antt =====
-- trust.py: the reservations of the rolling day.
use asset_embedding_protocol.Prelude.{
  ℕ, String, ◌≡◌, refl, inl, inr, false, [], ◌∷◌, ◌++◌, arith, eq_iff, if◌then◌else◌, ◌==◌, nat_eq,
  string_eq, Bool-cases, is_nonempty, ◌≤◌, subst, some,
}
use asset_embedding_protocol.Dict
use asset_embedding_protocol.Dict.{Dict}
use asset_embedding_protocol.Dict.Laws.{
  get-put, get-remove, put_absent, get-put_self, remove-put_absent,
}
use asset_embedding_protocol.Trust.{
  TrustEngine, Entries, entries_of, fresh, store_entries, prune, enter, amounts, day_total, total,
  release_amount,
}
use asset_embedding_protocol.Number.{Float}

module _ {F : Type 0} where
  -- What counts for an agent at a time, whether or not it has been pruned.
  abbrev pub live : String → ℕ → TrustEngine F → Entries F
  live agent now t = fresh now (entries_of agent t)

  pub entries_of-store_entries :
      (agent other : String) (es : Entries F) (t : TrustEngine F)
      → entries_of other (store_entries agent es t)
        ≡ (if agent == other then es else entries_of other t)
  unfolding entries_of store_entries
  entries_of-store_entries agent other [] t = ground (arith, get-remove agent other t.ledger)
  entries_of-store_entries agent other (x ∷ es) t =
      ground (arith, get-put agent other (x ∷ es) t.ledger)

  pub entries_of-enter :
      (agent other token : String) (now : ℕ) (amount : F) (es : Entries F) (t : TrustEngine F)
      → entries_of other (enter agent token now amount es t)
        ≡ (if agent == other then Dict.put token (now, amount) es else entries_of other t)
  unfolding entries_of enter
  entries_of-enter agent other token now amount es t =
      ground (arith, get-put agent other (Dict.put token (now, amount) es) t.ledger)

  -- Pruning early changes nothing that counts later.
  pub fresh-fresh : (now at : ℕ) (es : Entries F) → now ≤ at → fresh at (fresh now es) ≡ fresh at es
  unfolding fresh
  fresh-fresh now at [] h = refl
  fresh-fresh now at ((token, entry) ∷ es) h = ground (arith, fresh-fresh now at es h)

  pub fresh-append :
      (now : ℕ) (es ds : Entries F) → fresh now (es ++ ds) ≡ fresh now es ++ fresh now ds
  unfolding fresh
  fresh-append now [] ds = refl
  fresh-append now ((token, entry) ∷ es) ds = ground (arith, fresh-append now es ds)

  pub has-fresh :
      (token : String) (now : ℕ) (es : Entries F)
      → Dict.has token es ≡ false
      → Dict.has token (fresh now es) ≡ false
  unfolding fresh Dict.get
  has-fresh token now [] h = refl
  has-fresh token now ((j, entry) ∷ es) h = ground (arith, has-fresh token now es)

  fresh_empty :
      (now : ℕ) (es : Entries F) → is_nonempty es ≡ false → (es ≡ []) × (fresh now es ≡ [])
  unfolding fresh
  fresh_empty now [] h = (refl, refl)
  fresh_empty now (x ∷ es) h = absurd (ground arith)

  pub prune-live :
      (agent : String) (now : ℕ) (t : TrustEngine F)
      → ((prune agent now t).0 ≡ live agent now t)
        × (entries_of agent (prune agent now t).1 ≡ live agent now t)
  unfolding prune
  prune-live agent now t = elim (Bool-cases (is_nonempty (entries_of agent t))) [
    | inl some_left ↦ ground (
      arith,
      some_left,
      entries_of-store_entries agent agent (live agent now t) t,
      eq_iff agent agent,
    )
    | inr empty ↦ ground (arith, empty, fresh_empty now (entries_of agent t))
  ]

  pub prune_other :
      (agent other : String) (now : ℕ) (t : TrustEngine F)
      → (agent == other) ≡ false
      → entries_of other (prune agent now t).1 ≡ entries_of other t
  unfolding prune
  prune_other agent other now t h =
      ground (arith, entries_of-store_entries agent other (live agent now t) t)

  pub history-prune :
      (agent : String) (now : ℕ) (t : TrustEngine F) → (prune agent now t).1.history ≡ t.history
  unfolding prune store_entries
  history-prune agent now t = ground arith

  pub live-prune :
      (agent other : String) (now at : ℕ) (t : TrustEngine F)
      → now ≤ at
      → live other at (prune agent now t).1 ≡ live other at t
  live-prune agent other now at t h = elim (Bool-cases (agent == other)) [
    | inl same ↦
        let e : agent ≡ other = (eq_iff agent other).0 same in
        let p = (prune-live agent now t).1 in
        subst (λ o. live o at (prune agent now t).1 ≡ live o at t) e
          (rw p (fresh-fresh now at (entries_of agent t) h))
    | inr apart ↦ rw (prune_other agent other now t apart) refl
  ]

  -- The entries after a reservation, for the agent and for any other.
  pub live-enter :
      (agent other token : String) (now at : ℕ) (amount : F) (t : TrustEngine F)
      → now ≤ at
      → Dict.has token (entries_of agent t) ≡ false
      → live other at (enter agent token now amount (prune agent now t).0 (prune agent now t).1) ≡ (
          if agent == other
          then live agent at t ++ fresh at ((token, (now, amount)) ∷ [])
          else live other at t)
  live-enter agent other token now at amount t h new =
      rw entries_of-enter (elim (Bool-cases (agent == other)) [
        | inl same ↦ rw same (
            rw (
              (prune-live agent now t).0,
              put_absent token (now, amount) (live agent now t)
                  (has-fresh token now (entries_of agent t) new),
              fresh-append at (live agent now t) ((token, (now, amount)) ∷ []),
              fresh-fresh now at (entries_of agent t) h,
            ))
        | inr apart ↦ rw apart (rw (prune_other agent other now t apart))
      ])

  module _ (agent token : String) (now : ℕ) (amount : F) (t : TrustEngine F)
      (new : Dict.has token (entries_of agent t) ≡ false) where
    abbrev entered : TrustEngine F
    entered = enter agent token now amount (prune agent now t).0 (prune agent now t).1

    entries_of-entered : entries_of agent entered ≡ Dict.put token (now, amount) (live agent now t)
    entries_of-entered = ground (
      arith,
      entries_of-enter agent agent token now amount (prune agent now t).0 (prune agent now t).1,
      eq_iff agent agent,
      (prune-live agent now t).0,
    )

    release-entered :
        release_amount agent (some token) entered ≡ store_entries agent (live agent now t) entered
    unfolding release_amount
    release-entered =
        let absent = has-fresh token now (entries_of agent t) new in
        rw entries_of-entered (
          rw (get-put_self token (now, amount) (live agent now t))
            (rw (remove-put_absent token (now, amount) (live agent now t) absent)))

    -- Releasing what was just entered leaves what counts as it was.
    pub live-release :
        (other : String) (at : ℕ)
        → now ≤ at
        → live other at (release_amount agent (some token) entered) ≡ live other at t
    live-release other at h =
        rw (release-entered, entries_of-store_entries)
          (elim (Bool-cases (agent == other)) [
            | inl same ↦
                let e : agent ≡ other = (eq_iff agent other).0 same in
                rw same (
                  subst (λ o. fresh at (live agent now t) ≡ live o at t) e
                    (fresh-fresh now at (entries_of agent t) h))
            | inr apart ↦
                rw apart (rw entries_of-enter (rw apart (rw (prune_other agent other now t apart))))
          ])

module _ {F : Type 0} ⦃f : Float F⦄ where
  pub day_total-live :
      (agent : String) (now : ℕ) (t : TrustEngine F)
      → (day_total agent now t).0 ≡ total (live agent now t)
  unfolding day_total
  day_total-live agent now t = rw ((prune-live agent now t).0)

  pub amounts-append :
      (es : Entries F) (token : String) (entry : ℕ × F)
      → amounts (es ++ (token, entry) ∷ []) ≡ amounts es ++ entry.1 ∷ []
  unfolding amounts
  amounts-append [] token entry = refl
  amounts-append ((j, x) ∷ es) token entry = rw (amounts-append es token entry) refl
