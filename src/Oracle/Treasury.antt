-- ===== src/Oracle/Treasury.antt =====
-- oracle/treasury.py: TreasuryOracle, over a client whose state the caller chooses.
use asset_embedding_protocol.Prelude.{
  ℕ, zero, suc, ◌-◌, String, Option, none, some, List, [], ◌∷◌, Bool, true, false, if◌then◌else◌,
  nat_eq, string_eq,
}
use asset_embedding_protocol.Prelude.Int.{pos}
use asset_embedding_protocol.Number.{Float}
use asset_embedding_protocol.Dict
use asset_embedding_protocol.Models.{Observation}
use asset_embedding_protocol.Oracle.{TtlCache, cache_get, cache_set, tenor_fields}
use asset_embedding_protocol.Oracle.Feed.{
  Reader, Parsed, found, nothing_usable, unparseable, parse_yield_curve, Candidate,
}

-- The URL pinned by the caller, or `yield_curve_url` of a year, which writes the year into a fixed text.
pub data FeedUrl : Type 0 where
  pinned : String → FeedUrl
  year_feed : ℕ → FeedUrl

-- What `client.get` does: a response with `is_error` and its text, a TransportError, or another HTTPError.
pub data Reply : Type 0 where
  response : Bool → String → Reply
  transport_error other_http_error : Reply

abbrev pub Client : Type 0 → Type 0
Client S = FeedUrl → S → Reply × S

-- How `_fetch` ends: a body, None, or the HTTPError that it does not catch.
pub data Fetched : Type 0 where
  body : String → Fetched
  unavailable request_failed : Fetched

-- How `get_observation` ends: it returns, or raises UnsupportedTenor or, for an infinite yield,
-- OverflowError.
pub data Sought : Type 0 where
  observed : Observation → Sought
  no_observation unsupported_tenor overflow : Sought

-- TreasuryOracle: the cache and the state of the client
pub record TreasuryOracle (S : Type 0) : Type 0 where
  pub url : Option String
  pub cache : TtlCache Observation
  pub network : S

-- The clocks of one call: the monotonic clock where the cache is read and written, the time of
-- `fetched_at` and the year.
pub record Clocks : Type 0 where
  pub cache_read_at : ℕ
  pub cache_written_at : ℕ
  pub fetched_at : ℕ
  pub year : ℕ

-- _candidate_urls
unfoldable pub candidate_urls : Option String → ℕ → List FeedUrl
candidate_urls (some url) year = pinned url ∷ []
candidate_urls none year = year_feed year ∷ year_feed (year - 1) ∷ []

module _ {S : Type 0} (client : Client S) where
  -- the loop of `_fetch`, by the attempts that are left
  unfoldable pub attempt : ℕ → FeedUrl → S → Fetched × S
  attempt zero url s = (unavailable, s)
  attempt (suc n) url s =
      let (reply, s') = client url s in
      elim reply [
        | transport_error ↦ attempt n url s'
        | other_http_error ↦ (request_failed, s')
        | response is_error text ↦ ((if is_error then unavailable else body text), s')
      ]

  -- _fetch
  unfoldable pub fetch : FeedUrl → S → Fetched × S
  unfolding attempt
  fetch url s = attempt 2 url s

-- What the loop over the candidate URLs leaves `parsed` as, or an error that ends it.
pub data Search (F : Type 0) : Type 0 where
  usable : Candidate F → Search F
  exhausted gave_up : Search F

module _ {F S : Type 0} ⦃f : Float F⦄ (reader : Reader F) (client : Client S) where
  -- what one URL gives
  unfoldable pub parse_fetched : String → Fetched → Parsed F
  unfolding parse_yield_curve
  parse_fetched field_name (body xml) = parse_yield_curve reader xml field_name
  parse_fetched field_name unavailable = nothing_usable
  parse_fetched field_name request_failed = unparseable

  -- the loop over the candidate URLs; an HTTPError and a ParseError end it
  unfoldable pub search_feeds : String → List FeedUrl → S → Search F × S
  unfolding fetch parse_fetched
  search_feeds field_name [] s = (exhausted, s)
  search_feeds field_name (url ∷ urls) s =
      let (fetched, s') = fetch client url s in
      elim (parse_fetched field_name fetched) [
        | found c ↦ (usable c, s')
        | nothing_usable ↦ search_feeds field_name urls s'
        | unparseable ↦ (gave_up, s')
      ]

  -- the observation for a candidate
  unfoldable pub observation_of : String → ℕ → Candidate F → Observation
  observation_of tenor fetched_at c = record {
    source = "home.treasury.gov";
    dataset = "daily_treasury_yield_curve";
    tenor = tenor;
    observed_yield_bps = f.to_int (f.round (f.mul c.1 (f.of_int (pos 100))) 0);
    record_date = c.0;
    fetched_at = fetched_at;
    cache_hit = false;
  }

  -- how the call ends after the loop; int(round(…)) raises OverflowError for an infinite yield
  unfoldable pub settle_search :
      String → Clocks → Search F → TreasuryOracle S → Sought × TreasuryOracle S
  unfolding observation_of cache_set
  settle_search tenor t exhausted o = (no_observation, o)
  settle_search tenor t gave_up o = (no_observation, o)
  settle_search tenor t (usable c) o =
      let x = observation_of tenor t.fetched_at c in
      if f.is_finite (f.mul c.1 (f.of_int (pos 100)))
      then (observed x, record o { cache = cache_set tenor x t.cache_written_at o.cache })
      else (overflow, o)

  -- a cached observation, or the search
  unfoldable pub cached_or_search :
      String → String → Clocks → Option Observation → TreasuryOracle S → Sought × TreasuryOracle S
  unfolding settle_search search_feeds candidate_urls
  cached_or_search tenor field_name t (some x) o = (observed (record x { cache_hit = true }), o)
  cached_or_search tenor field_name t none o =
      let (result, s) = search_feeds field_name (candidate_urls o.url t.year) o.network in
      settle_search tenor t result (record o { network = s })

  -- get_observation of the field for the tenor
  unfoldable pub observe_field :
      String → Clocks → TreasuryOracle S → Option String → Sought × TreasuryOracle S
  unfolding cached_or_search cache_get
  observe_field tenor t o none = (unsupported_tenor, o)
  observe_field tenor t o (some field_name) =
      let (cached, cache) = cache_get tenor t.cache_read_at o.cache in
      cached_or_search tenor field_name t cached (record o { cache = cache })

  unfoldable pub get_observation : String → Clocks → TreasuryOracle S → Sought × TreasuryOracle S
  unfolding observe_field
  get_observation tenor t o = observe_field tenor t o (Dict.get tenor tenor_fields)
