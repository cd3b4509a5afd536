-- ===== src/Oracle/Provenance.antt =====
-- Where the observations of TreasuryOracle come from.
use asset_embedding_protocol.Prelude.{
  String, List, ◌≡◌, refl, arith, nat_eq, string_eq, ◌⊎◌, inl, inr, true, Option, none, some, [],
  ◌∷◌,
}
use asset_embedding_protocol.Number.{Float}
use asset_embedding_protocol.Dict
use asset_embedding_protocol.Oracle.Feed.{
  Reader, Parsed, found, parse_yield_curve, Candidate, nothing_usable, unparseable,
}
use asset_embedding_protocol.Oracle.Treasury.{
  FeedUrl, Client, Fetched, body, unavailable, request_failed, fetch, parse_fetched, Clocks,
  settle_search, cached_or_search, get_observation, observe_field, search_feeds, Search, usable,
  TreasuryOracle, observation_of, candidate_urls,
}
use asset_embedding_protocol.Models.{Observation}
use asset_embedding_protocol.Oracle.{tenor_fields, cache_get}
use asset_embedding_protocol.Oracle.Treasury.{observed, exhausted, gave_up}

module _ {F S : Type 0} ⦃f : Float F⦄ (reader : Reader F) (client : Client S) where
  -- A candidate that a body the client gave has for a field.
  pub record IsFetched (field_name : String) (c : Candidate F) : Type 0 where
    pub before : S
    pub url : FeedUrl
    pub xml : String
    pub given : (fetch client url before).0 ≡ body xml
    pub parsed : parse_yield_curve reader xml field_name ≡ found c

  Parsed-cases :
      (p : Parsed F)
      → ((c : Candidate F) × (p ≡ found c)) ⊎ (p ≡ nothing_usable) ⊎ (p ≡ unparseable)
  Parsed-cases (found c) = inl (c, refl)
  Parsed-cases nothing_usable = inr (inl refl)
  Parsed-cases unparseable = inr (inr refl)

  parse_fetched_found :
      (field_name : String) (x : Fetched) (c : Candidate F)
      → parse_fetched reader client field_name x ≡ found c
      → (xml : String) × (x ≡ body xml) × (parse_yield_curve reader xml field_name ≡ found c)
  unfolding parse_fetched
  parse_fetched_found field_name (body xml) c h = (xml, refl, h)
  parse_fetched_found field_name unavailable c h = absurd (ground (arith, h))
  parse_fetched_found field_name request_failed c h = absurd (ground (arith, h))

  search_step :
      (field_name : String) (url : FeedUrl) (s : S) (c : Candidate F)
      → parse_fetched reader client field_name (fetch client url s).0 ≡ found c
      → IsFetched field_name c
  search_step field_name url s c h =
      let (xml, given, parsed) = parse_fetched_found field_name (fetch client url s).0 c h in
      record { before = s; url = url; xml = xml; given = given; parsed = parsed }

  search_feeds-IsFetched :
      (field_name : String) (urls : List FeedUrl) (s : S) (c : Candidate F)
      → (search_feeds reader client field_name urls s).0 ≡ usable c
      → IsFetched field_name c
  unfolding search_feeds
  search_feeds-IsFetched field_name [] s c h = absurd (ground (arith, h))
  search_feeds-IsFetched field_name (url ∷ urls) s c h =
      elim (Parsed-cases (parse_fetched reader client field_name (fetch client url s).0)) [
        | inl (c', e) ↦ search_step field_name url s c (ground (arith, e, h))
        | inr (inl e) ↦
            search_feeds-IsFetched field_name urls (fetch client url s).1 c (ground (arith, e, h))
        | inr (inr e) ↦ absurd (ground (arith, e, h))
      ]

  -- An observation is the cached one, or that of a candidate the client delivered.
  pub record IsSourced (tenor : String) (t : Clocks) (o : TreasuryOracle S) (x : Observation)
      : Type 0 where
    pub field_name : String
    pub mapped : Dict.get tenor tenor_fields ≡ some field_name
    pub source :
        ((y : Observation) × ((cache_get tenor t.cache_read_at o.cache).0 ≡ some y)
          × (x ≡ record y { cache_hit = true }))
        ⊎ ((c : Candidate F) × ((cache_get tenor t.cache_read_at o.cache).0 ≡ none)
            × IsFetched field_name c
            × (x ≡ observation_of reader client tenor t.fetched_at c))

  settle_search_observed :
      (tenor : String) (t : Clocks) (r : Search F) (o : TreasuryOracle S) (x : Observation)
      → (settle_search reader client tenor t r o).0 ≡ observed x
      → (c : Candidate F) × (r ≡ usable c) × (x ≡ observation_of reader client tenor t.fetched_at c)
  unfolding settle_search
  settle_search_observed tenor t exhausted o x h = absurd (ground (arith, h))
  settle_search_observed tenor t gave_up o x h = absurd (ground (arith, h))
  settle_search_observed tenor t (usable c) o x h = (c, refl, ground (arith, h))

  cached_or_search-IsSourced :
      (tenor field_name : String) (t : Clocks) (o p : TreasuryOracle S) (y : Option Observation)
      (x : Observation)
      → Dict.get tenor tenor_fields ≡ some field_name
      → (cache_get tenor t.cache_read_at o.cache).0 ≡ y
      → (cached_or_search reader client tenor field_name t y p).0 ≡ observed x
      → IsSourced tenor t o x
  unfolding cached_or_search
  cached_or_search-IsSourced tenor field_name t o p (some y) x e k h = record {
    field_name = field_name;
    mapped = e;
    source = inl (y, k, ground (arith, h));
  }
  cached_or_search-IsSourced tenor field_name t o p none x e k h =
      let urls = candidate_urls p.url t.year in
      let (r, s) = search_feeds reader client field_name urls p.network in
      let (c, u, same) = settle_search_observed tenor t r (record p { network = s }) x h in
      record {
        field_name = field_name;
        mapped = e;
        source = inr (c, k, search_feeds-IsFetched field_name urls p.network c u, same);
      }

  observe_field-IsSourced :
      (tenor : String) (t : Clocks) (o : TreasuryOracle S) (q : Option String) (x : Observation)
      → Dict.get tenor tenor_fields ≡ q
      → (observe_field reader client tenor t o q).0 ≡ observed x
      → IsSourced tenor t o x
  unfolding observe_field
  observe_field-IsSourced tenor t o none x e h = absurd (ground (arith, h))
  observe_field-IsSourced tenor t o (some field_name) x e h =
      let (cached, cache) = cache_get tenor t.cache_read_at o.cache in
      cached_or_search-IsSourced tenor field_name t o (record o { cache = cache }) cached x e refl h

  -- An observation that `get_observation` returns is for a tenor of the table and is never made up: it
  -- is the one that the cache holds, marked as a hit, or else, the cache having none, the observation of
  -- the candidate that `parse_yield_curve` found in a body the client delivered.
  pub get_observation-IsSourced :
      (tenor : String) (t : Clocks) (o : TreasuryOracle S) (x : Observation)
      → (get_observation reader client tenor t o).0 ≡ observed x
      → IsSourced tenor t o x
  unfolding get_observation
  get_observation-IsSourced tenor t o x h =
      observe_field-IsSourced tenor t o (Dict.get tenor tenor_fields) x refl h
