-- ===== src/Oracle/Newest.antt =====
-- The candidate that `parse_yield_curve` picks.
use asset_embedding_protocol.Prelude.{
  String, ◌≡◌, ◌↔◌, refl, ap, sym, Option, some, none, List, [], ◌∷◌, ◌++◌, ◌≤◌, ◌<◌, All, arith,
  Bool-cases, inl, inr, ltb, true, subst, Bool, false, if◌then◌else◌, nat_eq, string_eq,
}
use asset_embedding_protocol.Number.{Float}
use asset_embedding_protocol.Oracle.Feed.{
  Candidate, candidates, candidate_of, candidate, newest, newest_from, parse_yield_curve, found,
  parsed_of, Reader, Element, iter, nothing_usable, values_of, and_more,
}
use asset_embedding_protocol.Dict.{Dict}
use asset_embedding_protocol.Text.{Codes}

module _ {F : Type 0} where
  -- The first of the greatest dates.
  pub record IsNewest (c : Candidate F) (cs : List (Candidate F)) : Type 0 where
    pub before : List (Candidate F)
    pub after : List (Candidate F)
    pub split : cs ≡ before ++ c ∷ after
    pub older : All (λ (x : Candidate F). x.0 < c.0) before
    pub no_newer : All (λ (x : Candidate F). x.0 ≤ c.0) after

  newest_from-ge : (best : Candidate F) (cs : List (Candidate F)) → best.0 ≤ (newest_from best cs).0
  unfolding newest_from
  newest_from-ge best [] = omega arith
  newest_from-ge best (c ∷ cs) =
      ground (arith, newest_from-ge (if ltb best.0 c.0 then c else best) cs)

  -- a candidate that is no newer than the best is passed by
  skip :
      (best c r : Candidate F) (cs before after : List (Candidate F))
      → c.0 ≤ best.0
      → best ∷ cs ≡ before ++ r ∷ after
      → All (λ (x : Candidate F). x.0 < r.0) before
      → All (λ (x : Candidate F). x.0 ≤ r.0) after
      → IsNewest r (best ∷ c ∷ cs)
  skip best c r cs [] after h e o n =
      let same : best ≡ r = cc in
      let rest : cs ≡ after = cc in
      record {
        before = [];
        after = c ∷ after;
        split = cc;
        older = tt;
        no_newer = (subst (λ (x : Candidate F). c.0 ≤ x.0) same h, n);
      }
  skip best c r cs (b ∷ bs) after h e o n =
      let same : best ≡ b = cc in
      let rest : cs ≡ bs ++ r ∷ after = cc in
      let under : best.0 < r.0 = subst (λ (x : Candidate F). x.0 < r.0) (sym same) o.0 in
      record {
        before = best ∷ c ∷ bs;
        after = after;
        split = ap (λ t. best ∷ c ∷ t) rest;
        older = (under, (omega arith, o.1));
        no_newer = n;
      }

  newest_from-IsNewest :
      (best : Candidate F) (cs : List (Candidate F)) → IsNewest (newest_from best cs) (best ∷ cs)
  unfolding newest_from
  newest_from-IsNewest best [] = record {
    before = [];
    after = [];
    split = refl;
    older = tt;
    no_newer = tt;
  }
  newest_from-IsNewest best (c ∷ cs) = elim (Bool-cases (ltb best.0 c.0)) [
    | inl newer ↦
        let r = newest_from-IsNewest c cs in
        let above = newest_from-ge c cs in
        rw (newer, newest_from)
          (record {
            before = best ∷ r.before;
            after = r.after;
            split = ap (λ t. best ∷ t) r.split;
            older = (ground arith, r.older);
            no_newer = r.no_newer;
          })
    | inr older ↦
        let r = newest_from-IsNewest best cs in
        rw (older, newest_from)
          (skip best c (newest_from best cs) cs r.before r.after (ground arith) r.split r.older
            r.no_newer)
  ]

  newest_from_kept :
      (c : Candidate F) (after : List (Candidate F))
      → All (λ (x : Candidate F). x.0 ≤ c.0) after
      → newest_from c after ≡ c
  unfolding newest_from
  newest_from_kept c [] n = refl
  newest_from_kept c (x ∷ after) n = ground (arith, newest_from_kept c after n.1)

  newest_from_reached :
      (best c : Candidate F) (before after : List (Candidate F))
      → best.0 < c.0
      → All (λ (x : Candidate F). x.0 < c.0) before
      → All (λ (x : Candidate F). x.0 ≤ c.0) after
      → newest_from best (before ++ c ∷ after) ≡ c
  unfolding newest_from
  newest_from_reached best c [] after h o n = ground (arith, newest_from_kept c after n)
  newest_from_reached best c (x ∷ before) after h o n =
      newest_from_reached (if ltb best.0 x.0 then x else best) c before after (ground arith) o.1 n

  newest_of :
      (c : Candidate F) (before after : List (Candidate F))
      → All (λ (x : Candidate F). x.0 < c.0) before
      → All (λ (x : Candidate F). x.0 ≤ c.0) after
      → newest (before ++ c ∷ after) ≡ some c
  unfolding newest
  newest_of c [] after o n = ap some (newest_from_kept c after n)
  newest_of c (b ∷ before) after o n = ap some (newest_from_reached b c before after o.0 o.1 n)

  not_split : (c : Candidate F) (before after : List (Candidate F)) → ¬ ([] ≡ before ++ c ∷ after)
  not_split c [] after e = cc
  not_split c (x ∷ before) after e = cc

  newest-IsNewest : (c : Candidate F) (cs : List (Candidate F)) → newest cs ≡ some c → IsNewest c cs
  unfolding newest
  newest-IsNewest c [] h = absurd (ground (arith, h))
  newest-IsNewest c (x ∷ cs) h =
      let same : newest_from x cs ≡ c = cc in
      subst (λ y. IsNewest y (x ∷ cs)) same (newest_from-IsNewest x cs)

  IsNewest-newest : (c : Candidate F) (cs : List (Candidate F)) → IsNewest c cs → newest cs ≡ some c
  IsNewest-newest c cs n =
      subst (λ l. newest l ≡ some c) (sym n.split) (newest_of c n.before n.after n.older n.no_newer)

module _ {F : Type 0} ⦃f : Float F⦄ (r : Reader F) where
  parsed_found : (o : Option (Candidate F)) (c : Candidate F) → parsed_of o ≡ found c → o ≡ some c
  parsed_found none c h = absurd (ground (arith, h))
  parsed_found (some x) c h = ground (arith, h)

  parsed_nothing : (cs : List (Candidate F)) → (parsed_of (newest cs) ≡ nothing_usable) ↔ (cs ≡ [])
  unfolding newest
  parsed_nothing [] = (λ h. refl, λ h. refl)
  parsed_nothing (x ∷ cs) = (λ h. absurd (ground (arith, h)), λ h. absurd (ground (arith, h)))

  candidate_of-le :
      (field_name : String) (values : Dict Codes) (c : Candidate F)
      → candidate_of r field_name values ≡ some c
      → f.le f.nought c.1 ≡ true
  unfolding candidate_of candidate
  candidate_of-le field_name values c h = ground (arith, h)

  abbrev pub IsNonneg : Candidate F → Type 0
  IsNonneg x = f.le f.nought x.1 ≡ true

  and_more-All :
      (o : Option (Candidate F)) (cs : List (Candidate F))
      → ((c : Candidate F) → o ≡ some c → IsNonneg c)
      → All IsNonneg cs
      → All IsNonneg (and_more o cs)
  and_more-All none cs h rest = rest
  and_more-All (some c) cs h rest = (h c refl, rest)

  if-All :
      (b : Bool) (cs ds : List (Candidate F))
      → All IsNonneg cs
      → All IsNonneg ds
      → All IsNonneg (if b then cs else ds)
  if-All true cs ds h k = h
  if-All false cs ds h k = k

  candidates-IsNonneg :
      (field_name : String) (es : List Element) → All IsNonneg (candidates r field_name es)
  unfolding candidates
  candidates-IsNonneg field_name [] = tt
  candidates-IsNonneg field_name (e ∷ es) =
      let rest = candidates-IsNonneg field_name es in
      let o = candidate_of r field_name (values_of (iter e) []) in
      if-All _ _ _
        (and_more-All o _ (λ c h. candidate_of-le field_name (values_of (iter e) []) c h) rest) rest

  -- Where the feed is well-formed XML, `parse_yield_curve` finds a candidate exactly if it is the
  -- first of those with the greatest date among the entries' dated yields that are not negative, and
  -- finds nothing exactly if no entry has one.
  pub parse_yield_curve-IsNewest_iff :
      (xml field_name : String) (root : Element) (c : Candidate F)
      → r.fromstring xml ≡ some root
      → let cs = candidates r field_name (iter root) in
        ((parse_yield_curve r xml field_name ≡ found c) ↔ IsNewest c cs)
        × ((parse_yield_curve r xml field_name ≡ nothing_usable) ↔ (cs ≡ []))
        × All IsNonneg cs
  unfolding parse_yield_curve
  parse_yield_curve-IsNewest_iff xml field_name root c h =
      let cs = candidates r field_name (iter root) in
      (
        (
          λ e. newest-IsNewest c cs (parsed_found (newest cs) c (ground (arith, h, e))),
          λ n. let picked = IsNewest-newest c cs n in ground (arith, h, picked),
        ),
        (
          λ e. (parsed_nothing cs).0 (ground (arith, h, e)),
          λ e. let p = (parsed_nothing cs).1 e in ground (arith, h, p),
        ),
        candidates-IsNonneg field_name (iter root),
      )
