-- ===== src/Verification/Hoare.antt =====
-- Triples for the stages of the pipeline, with a postcondition for each way to leave a stage.
use asset_embedding_protocol.Prelude.{
  ◌≡◌, refl, Bool, true, false, if◌then◌else◌, nat_eq, string_eq, sym, subst,
}
use asset_embedding_protocol.Pipeline.{Session, Exit, Progress, go, leave, Stage, ◌>>=◌, pure}

module _ {F A : Type 0} where
  abbrev pub Post :
      (A → Session F → Type 0) → (Exit F → Session F → Type 0) → Progress F A → Session F → Type 0
  Post R Q (go a) s = R a s
  Post R Q (leave x) s = Q x s

  -- From a session with `P`, the stage goes on with `R` or leaves with `Q`.
  pub record Hoare (P : Session F → Type 0) (m : Stage F A) (R : A → Session F → Type 0)
      (Q : Exit F → Session F → Type 0) : Type 0 where
    pub at : (s : Session F) → P s → Post R Q (m s).0 (m s).1

module _ {F A B : Type 0} {P : Session F → Type 0} {R : A → Session F → Type 0}
    {T : B → Session F → Type 0} {Q : Exit F → Session F → Type 0} where
  pub Hoare-bind :
      (m : Stage F A) (k : A → Stage F B)
      → Hoare P m R Q
      → ((a : A) → Hoare (R a) (k a) T Q)
      → Hoare P (m >>= k) T Q
  unfolding ◌>>=◌
  Hoare-bind m k h g = record { at = λ s x. let (p, s') = m s in go_on p s' (h.at s x) }
    where
      go_on :
          (p : Progress F A) (s : Session F)
          → Post R Q p s
          → Post T Q (((λ _. (p, s)) >>= k) s).0 (((λ _. (p, s)) >>= k) s).1
      go_on (go a) s y = (g a).at s y
      go_on (leave x) s y = y

module _ {F A : Type 0} {Q : Exit F → Session F → Type 0} where
  pub Hoare-pure : {R : A → Session F → Type 0} (a : A) → Hoare (R a) (pure a) R Q
  unfolding pure
  Hoare-pure a = record { at = λ s x. x }

  pub Hoare-weaken :
      {P P' : Session F → Type 0} {R : A → Session F → Type 0} {m : Stage F A}
      → ((s : Session F) → P' s → P s)
      → Hoare P m R Q
      → Hoare P' m R Q
  Hoare-weaken f h = record { at = λ s x. h.at s (f s x) }

  pub Hoare-if :
      {P : Session F → Type 0} {R : A → Session F → Type 0} (b : Bool) (m n : Stage F A)
      → (b ≡ true → Hoare P m R Q)
      → (b ≡ false → Hoare P n R Q)
      → Hoare P (if b then m else n) R Q
  Hoare-if true m n h k = h refl
  Hoare-if false m n h k = k refl

module _ {F A : Type 0} where
  -- A triple from one fact for each way to end.
  pub Hoare-intro :
      {P : Session F → Type 0} {m : Stage F A} {R : A → Session F → Type 0}
      {Q : Exit F → Session F → Type 0}
      → ((s : Session F) → P s → (a : A) → (m s).0 ≡ go a → R a (m s).1)
      → ((s : Session F) → P s → (x : Exit F) → (m s).0 ≡ leave x → Q x (m s).1)
      → Hoare P m R Q
  Hoare-intro {m = m} {R} {Q} f g = record {
    at = λ s y. let (p, s') = m s in tag p s' (f s y) (g s y);
  }
    where
      tag :
          (p : Progress F A) (s : Session F)
          → ((a : A) → p ≡ go a → R a s)
          → ((x : Exit F) → p ≡ leave x → Q x s)
          → Post R Q p s
      tag (go a) s f g = f a refl
      tag (leave x) s f g = g x refl

  -- A postcondition that does not ask how the stage ended.
  pub Hoare-both :
      {P P' : Session F → Type 0} {m : Stage F A}
      → ((s : Session F) → P s → P' (m s).1)
      → Hoare P m (λ _. P') (λ _. P')
  Hoare-both {P' = P'} {m} h = record { at = λ s x. let (p, s') = m s in tag p s' (h s x) }
    where
      tag : (p : Progress F A) (s : Session F) → P' s → Post (λ _. P') (λ _. P') p s
      tag (go a) s y = y
      tag (leave x) s y = y

  -- A stage that keeps what `view` shows keeps every predicate of it.
  pub Hoare-view :
      {V : Type 0} {m : Stage F A} {Q : Exit F → Session F → Type 0} (view : Session F → V)
      (P : V → Type 0)
      → ((x : Exit F) (s : Session F) → P (view s) → Q x s)
      → ((s : Session F) → view (m s).1 ≡ view s)
      → Hoare (λ s. P (view s)) m (λ _ s. P (view s)) Q
  Hoare-view {m = m} {Q} view P out same = record {
    at = λ s y. let (p, s') = m s in tag p s' (subst P (sym (same s)) y);
  }
    where
      tag : (p : Progress F A) (s : Session F) → P (view s) → Post (λ _ s. P (view s)) Q p s
      tag (go a) s y = y
      tag (leave x) s y = out x s y
