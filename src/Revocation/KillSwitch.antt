-- ===== src/Revocation/KillSwitch.antt =====
-- revocation.py: the kill switch, against what an administrator's commands say about each subject.
use asset_embedding_protocol.Prelude.{
  ℕ, ◌≤◌, String, ◌≡◌, refl, ◌∙◌, Bool, true, false, Option, none, some, List, [], ◌∷◌, arith,
  eq_iff, ltb, if◌then◌else◌, ◌==◌, nat_eq, string_eq, All, inl, inr, Option-cases,
}
use asset_embedding_protocol.Prelude.Int.{ℤ}
use asset_embedding_protocol.Dict
use asset_embedding_protocol.Dict.Laws.{get-put, get-remove}
use asset_embedding_protocol.Revocation.{
  after, SubjectType, RevocationRecord, RevocationStore, revoke, suspend, reinstate, is_revoked,
  after, suspend_until,
}

-- What holds of a subject, with the records forgotten.
pub data Standing : Type 0 where
  clear permanent : Standing
  until : ℕ → Standing

abbrev pub of_record : Option RevocationRecord → Standing
of_record none = clear
of_record (some r) = elim r.suspended_until [ none ↦ permanent | some t ↦ until t ]

unfoldable pub standing : String → RevocationStore → Standing
standing subject s = of_record (Dict.get subject s.records)

-- is the subject kept from acting at this time?
pub blocks : Standing → ℕ → Bool
blocks clear now = false
blocks permanent now = true
blocks (until t) now = ltb now t

-- The calls that an administrator and the verifier make, with their arguments and clock readings.
pub data Command : Type 0 where
  revoking : String → SubjectType → String → String → String → ℕ → ℕ → Command
  suspending : String → SubjectType → ℤ → String → String → String → ℕ → ℕ → ℕ → Command
  reinstating : String → ℕ → Command
  querying : String → ℕ → Command

pub run : Command → RevocationStore → RevocationStore
run (revoking i k r b c now synced) s = revoke i k r b c now synced s
run (suspending i k d r b c now start synced) s = elim (suspend i k d r b c now start synced s) [
  | none ↦ s
  | some t ↦ t
]
run (reinstating i synced) s = (reinstate i synced s).1
run (querying i now) s = (is_revoked i now s).1

pub run_all : List Command → RevocationStore → RevocationStore
run_all [] s = s
run_all (c ∷ cs) s = run_all cs (run c s)

-- What a command says about a subject; a query says nothing.
pub effect : String → Command → Standing → Standing
effect subject (revoking i k r b c now synced) x = if i == subject then permanent else x
effect subject (suspending i k d r b c now start synced) x = elim (after start d) [
  | none ↦ x
  | some end_at ↦ if i == subject then until end_at else x
]
effect subject (reinstating i synced) x = if i == subject then clear else x
effect subject (querying i now) x = x

pub effect_all : String → List Command → Standing → Standing
effect_all subject [] x = x
effect_all subject (c ∷ cs) x = effect_all subject cs (effect subject c x)

-- every query among the commands was made at `now` or before
abbrev pub NoLater : ℕ → Command → Type 0
NoLater now (querying i at) = at ≤ now
NoLater now c = Unit

is_revoked-blocks :
    (subject : String) (now : ℕ) (s : RevocationStore)
    → (is_revoked subject now s).0 ≡ blocks (standing subject s) now
unfolding is_revoked standing blocks
is_revoked-blocks subject now s = ground arith

query_invisible :
    (subject i : String) (at now : ℕ) (s : RevocationStore)
    → at ≤ now
    → blocks (standing subject (is_revoked i at s).1) now ≡ blocks (standing subject s) now
unfolding is_revoked standing blocks
query_invisible subject i at now s h =
    ground (arith, get-remove i subject s.records, eq_iff i subject)

suspend_until-blocks :
    (i : String) (k : SubjectType) (r b c : String) (n t y : ℕ) (subject : String) (now : ℕ)
    (s : RevocationStore)
    → blocks (standing subject (suspend_until i k r b c n t y s)) now
      ≡ blocks (if i == subject then until t else standing subject s) now
unfolding suspend_until standing
suspend_until-blocks i k r b c n t y subject now s = rw get-put (ground arith)

run-effect :
    (c : Command) (subject : String) (now : ℕ) (s : RevocationStore)
    → NoLater now c
    → blocks (standing subject (run c s)) now ≡ blocks (effect subject c (standing subject s)) now
unfolding run effect standing revoke suspend reinstate
run-effect (revoking i k r b c n y) subject now s h = rw get-put (ground arith)
run-effect (suspending i k d r b c n st y) subject now s h = elim (Option-cases (after st d)) [
  | inl over ↦ ground (arith, over)
  | inr (t, e) ↦ ground (arith, e, suspend_until-blocks i k r b c n t y subject now s)
]
run-effect (reinstating i y) subject now s h = ground (arith, get-remove i subject s.records)
run-effect (querying i at) subject now s h = query_invisible subject i at now s h

-- An effect depends on the standing before only through what it blocks.
effect-blocks :
    (c : Command) (subject : String) (now : ℕ) (x y : Standing)
    → blocks x now ≡ blocks y now
    → blocks (effect subject c x) now ≡ blocks (effect subject c y) now
unfolding effect
effect-blocks (revoking i k r b c n z) subject now x y h = ground arith
effect-blocks (suspending i k d r b c n st z) subject now x y h = ground arith
effect-blocks (reinstating i z) subject now x y h = ground arith
effect-blocks (querying i at) subject now x y h = h

effect_all-blocks :
    (cs : List Command) (subject : String) (now : ℕ) (x y : Standing)
    → blocks x now ≡ blocks y now
    → blocks (effect_all subject cs x) now ≡ blocks (effect_all subject cs y) now
unfolding effect_all
effect_all-blocks [] subject now x y h = h
effect_all-blocks (c ∷ cs) subject now x y h =
    effect_all-blocks cs subject now (effect subject c x) (effect subject c y)
      (effect-blocks c subject now x y h)

run_all-effect_all :
    (cs : List Command) (subject : String) (now : ℕ) (s : RevocationStore)
    → All (NoLater now) cs
    → blocks (standing subject (run_all cs s)) now
      ≡ blocks (effect_all subject cs (standing subject s)) now
unfolding run_all effect_all
run_all-effect_all [] subject now s h = refl
run_all-effect_all (c ∷ cs) subject now s h =
    run_all-effect_all cs subject now (run c s) h.1
    ∙ effect_all-blocks cs subject now (standing subject (run c s))
        (effect subject c (standing subject s)) (run-effect c subject now s h.0)

-- After any commands, a subject counts as revoked at a time exactly if the last word on it says so: a
-- revocation blocks for good, a suspension until its end, a reinstatement not at all; commands about
-- other subjects, queries, and a suspension that raises since its end is out of datetime's range change
-- nothing. The queries in between were made at that time or before.
pub is_revoked-effect_all :
    (cs : List Command) (subject : String) (now : ℕ) (s : RevocationStore)
    → All (NoLater now) cs
    → (is_revoked subject now (run_all cs s)).0
      ≡ blocks (effect_all subject cs (standing subject s)) now
is_revoked-effect_all cs subject now s h =
    is_revoked-blocks subject now (run_all cs s) ∙ run_all-effect_all cs subject now s h
