-- ===== src/Tests/Feeds.antt =====
-- Examples of TreasuryOracle over a feed of two entries and a client that first fails.
use asset_embedding_protocol.Prelude.{
  ℕ, suc, ◌+◌, ◌≤◌, ◌≡◌, ◌↔◌, refl, String, none, some, [], length, false, All, ltb, if◌then◌else◌,
  nat_eq, string_eq, ◌*◌,
}
use asset_embedding_protocol.Dict
use asset_embedding_protocol.Number.Fixed.{fixed}
use asset_embedding_protocol.Text.{codes_beq}
use asset_embedding_protocol.Models.{Observation}
use asset_embedding_protocol.Oracle.Feed.{
  Reader, Element, element, no_more, more, candidates, iter, parse_yield_curve, found,
  nothing_usable,
}
use asset_embedding_protocol.Oracle.Newest.{IsNewest, IsNonneg, parse_yield_curve-IsNewest_iff}
use asset_embedding_protocol.Oracle.Treasury.{
  Client, response, transport_error, TreasuryOracle, Clocks, get_observation, observed,
  observation_of,
}
use asset_embedding_protocol.Oracle.Requests.{counted, get_observation_bounded}
use asset_embedding_protocol.Oracle.Provenance.{IsSourced, get_observation-IsSourced}

abbrev leaf : String → String → Element
leaf tag text = element tag (some text) no_more

abbrev entry : String → String → Element
entry date' yield =
    element "{atom}entry" none
      (more (leaf "{d}NEW_DATE" date') (more (leaf "{d}BC_3MONTH" yield) no_more))

-- two entries, the second of the later date
abbrev feed : Element
feed = element "feed" none (more (entry "1" "55555") (more (entry "22" "4444") no_more))

-- A text is read as its length.
abbrev pub reader : Reader ℕ
reader = record {
  datetime_date = λ cs. some (length cs);
  iso_date = λ cs. none;
  parse_float = λ cs. some (length cs * 10000);
  fromstring = λ xml. some feed;
}

parse_yield_curve-IsNewest_iff_example :
    let cs = candidates reader "BC_3MONTH" (iter feed) in
    ((parse_yield_curve reader "" "BC_3MONTH" ≡ found (2, 40000)) ↔ IsNewest (2, 40000) cs)
    × ((parse_yield_curve reader "" "BC_3MONTH" ≡ nothing_usable) ↔ (cs ≡ []))
    × All (IsNonneg reader) cs
parse_yield_curve-IsNewest_iff_example =
    parse_yield_curve-IsNewest_iff reader "" "BC_3MONTH" feed (2, 40000) refl

-- a client whose first request fails; its state is the number of requests
abbrev pub client : Client ℕ
client url n = ((if ltb 0 n then response false "" else transport_error), suc n)

abbrev pub clocks : Clocks
clocks = record { cache_read_at = 5; cache_written_at = 6; fetched_at = 7; year = 2026 }

abbrev oracle : TreasuryOracle ℕ
oracle = record { url = none; cache = record { ttl_seconds = 60; values = [] }; network = 0 }

abbrev counting : TreasuryOracle (ℕ × ℕ)
counting = record { url = none; cache = oracle.cache; network = (0, 0) }

get_observation_bounded_example :
    (get_observation reader (counted client) "3M" clocks counting).1.network.1 ≤ 0 + 4
get_observation_bounded_example = get_observation_bounded client reader "3M" clocks counting

abbrev bill : Observation
bill = observation_of reader client "3M" 7 (2, 40000)

sought : (get_observation reader client "3M" clocks oracle).0 ≡ observed bill
unfolding get_observation Dict.get Dict.put codes_beq
sought = refl

get_observation-IsSourced_example : IsSourced reader client "3M" clocks oracle bill
get_observation-IsSourced_example =
    get_observation-IsSourced reader client "3M" clocks oracle bill sought
