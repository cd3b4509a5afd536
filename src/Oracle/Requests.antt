-- ===== src/Oracle/Requests.antt =====
-- How often TreasuryOracle calls its client.
use asset_embedding_protocol.Prelude.{
  ℕ, zero, suc, ◌+◌, ◌*◌, ◌≤◌, ◌≡◌, refl, String, Option, none, some, List, [], ◌∷◌, length, arith,
  nat_eq, string_eq,
}
use asset_embedding_protocol.Number.{Float}
use asset_embedding_protocol.Dict
use asset_embedding_protocol.Models.{Observation}
use asset_embedding_protocol.Oracle.{tenor_fields, cache_get}
use asset_embedding_protocol.Oracle.Feed.{Reader}
use asset_embedding_protocol.Oracle.Treasury.{
  FeedUrl, Client, TreasuryOracle, Clocks, candidate_urls, attempt, fetch, Search, usable,
  exhausted, gave_up, search_feeds, settle_search, cached_or_search, get_observation, observe_field,
}

module _ {S : Type 0} (client : Client S) where
  -- the client with a count of its calls
  abbrev pub counted : Client (S × ℕ)
  counted url s = let (reply, s') = client url s.0 in (reply, (s', suc s.1))

  attempt_bounded : (n : ℕ) (url : FeedUrl) (s : S × ℕ) → (attempt counted n url s).1.1 ≤ s.1 + n
  unfolding attempt
  attempt_bounded zero url s = omega arith
  attempt_bounded (suc n) url s =
      ground (arith, attempt_bounded n url ((client url s.0).1, suc s.1))

  module _ {F : Type 0} ⦃f : Float F⦄ (reader : Reader F) where
    search_feeds_bounded :
        (field_name : String) (urls : List FeedUrl) (s : S × ℕ)
        → (search_feeds reader counted field_name urls s).1.1 ≤ s.1 + 2 * length urls
    unfolding search_feeds fetch
    search_feeds_bounded field_name [] s = omega arith
    search_feeds_bounded field_name (url ∷ urls) s =
        let s' = (attempt counted 2 url s).1 in
        ground (arith, attempt_bounded 2 url s, search_feeds_bounded field_name urls s')

    length-candidate_urls-le :
        (url : Option String) (year : ℕ) → length (candidate_urls url year) ≤ 2
    unfolding candidate_urls
    length-candidate_urls-le none year = omega arith
    length-candidate_urls-le (some u) year = omega arith

    network-settle_search :
        (tenor : String) (t : Clocks) (x : Search F) (o : TreasuryOracle (S × ℕ))
        → (settle_search reader counted tenor t x o).1.network ≡ o.network
    unfolding settle_search
    network-settle_search tenor t exhausted o = refl
    network-settle_search tenor t gave_up o = refl
    network-settle_search tenor t (usable c) o = ground arith

    cached_or_search_bounded :
        (tenor field_name : String) (t : Clocks) (c : Option Observation)
        (o : TreasuryOracle (S × ℕ))
        → (cached_or_search reader counted tenor field_name t c o).1.network.1 ≤ o.network.1 + 4
    unfolding cached_or_search
    cached_or_search_bounded tenor field_name t (some x) o = omega arith
    cached_or_search_bounded tenor field_name t none o =
        let urls = candidate_urls o.url t.year in
        let (x, s) = search_feeds reader counted field_name urls o.network in
        ground (
          arith,
          network-settle_search tenor t x (record o { network = s }),
          search_feeds_bounded field_name urls o.network,
          length-candidate_urls-le o.url t.year,
        )

    observe_field_bounded :
        (tenor : String) (t : Clocks) (o : TreasuryOracle (S × ℕ)) (field_name : Option String)
        → (observe_field reader counted tenor t o field_name).1.network.1 ≤ o.network.1 + 4
    unfolding observe_field
    observe_field_bounded tenor t o none = omega arith
    observe_field_bounded tenor t o (some field_name) =
        let (cached, cache) = cache_get tenor t.cache_read_at o.cache in
        cached_or_search_bounded tenor field_name t cached (record o { cache = cache })

    -- A call of `get_observation` calls the client at most four times, whatever the client answers: two
    -- attempts for each of at most two feeds. Redirects that the client follows in a call are not counted.
    pub get_observation_bounded :
        (tenor : String) (t : Clocks) (o : TreasuryOracle (S × ℕ))
        → (get_observation reader counted tenor t o).1.network.1 ≤ o.network.1 + 4
    unfolding get_observation
    get_observation_bounded tenor t o =
        observe_field_bounded tenor t o (Dict.get tenor tenor_fields)
