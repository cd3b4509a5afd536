-- ===== src/Oracle/Feed.antt =====
-- oracle/treasury.py: `parse_yield_curve` over the element tree that xml.etree makes of a feed. Reading
-- a date or a float from a text is Python's.
use asset_embedding_protocol.Prelude.{
  ℕ, suc, String, Option, none, some, List, [], ◌∷◌, ◌++◌, Bool, false, ◌||◌, ltb, if◌then◌else◌,
  ◌==◌, nat_eq, string_eq, zero,
}
use asset_embedding_protocol.Number.{Float}
use asset_embedding_protocol.Text.{Codes, codes, codes_eq, strip, upper}
use asset_embedding_protocol.Dict
use asset_embedding_protocol.Dict.{Dict}
use Prim.Native.Char.{code}

-- xml.etree.ElementTree.Element, with its attributes left out
mutual
  pub data Element : Type 0 where
    element : String → Option String → Elements → Element

  pub data Elements : Type 0 where
    no_more : Elements
    more : Element → Elements → Elements

abbrev pub tag_of : Element → String
tag_of (element tag text children) = tag

abbrev pub text_of : Element → Option String
text_of (element tag text children) = text

-- Element.iter(): the element and all below it, in document order
unfoldable mutual
  pub iter : Element → List Element
  iter (element tag text children) = element tag text children ∷ iter_all children

  pub iter_all : Elements → List Element
  iter_all no_more = []
  iter_all (more e es) = iter e ++ iter_all es

has_brace : String → Bool
has_brace String.[] = false
has_brace (String.◌∷◌ c s) = code c == b'}' || has_brace s

-- _local_name: what follows the last "}"
unfoldable pub local_name : String → String
unfolding has_brace
local_name String.[] = String.[]
local_name (String.◌∷◌ c s) =
    let rest = local_name s in
    if has_brace s then rest else if code c == b'}' then s else String.◌∷◌ c s

-- (node.text or "").strip()
unfoldable pub stripped : Option String → Codes
stripped none = []
stripped (some s) = strip (codes s)

-- {_local_name(node.tag): (node.text or "").strip() for node in …}
unfoldable pub values_of : List Element → Dict Codes → Dict Codes
unfolding local_name stripped
values_of [] d = d
values_of (e ∷ es) d = values_of es (Dict.put (local_name (tag_of e)) (stripped (text_of e)) d)

-- A text that is there and not empty.
abbrev pub filled : Option Codes → Option Codes
filled none = none
filled (some []) = none
filled (some (c ∷ cs)) = some (c ∷ cs)

-- a or b
abbrev pub or_next : Option Codes → Option Codes → Option Codes
or_next none b = b
or_next (some a) b = some a

-- values.get("NEW_DATE") or values.get("QUOTE_DATE") or values.get("record_date")
unfoldable pub raw_date : Dict Codes → Option Codes
raw_date values =
    or_next (filled (Dict.get "NEW_DATE" values))
      (or_next (filled (Dict.get "QUOTE_DATE" values)) (filled (Dict.get "record_date" values)))

-- raw_yield.upper() in {"N/A", "NA"}
unfoldable pub is_missing : Codes → Bool
unfolding upper
is_missing raw = upper raw == codes "N/A" || upper raw == codes "NA"

-- What Python reads from a text: `none` where ValueError is raised.
pub record Reader (F : Type 0) : Type 0 where
  -- datetime.fromisoformat(value).date() and date.fromisoformat(value), as days
  pub datetime_date : Codes → Option ℕ
  pub iso_date : Codes → Option ℕ
  -- float(raw)
  pub parse_float : Codes → Option F
  -- ElementTree.fromstring(xml), `none` where ParseError is raised
  pub fromstring : String → Option Element

-- value.replace("Z", "+00:00")
unfoldable pub replace_z : Codes → Codes
replace_z [] = []
replace_z (c ∷ cs) =
    let rest = replace_z cs in if c == b'Z' then codes "+00:00" ++ rest else c ∷ rest

-- value[:n]
unfoldable pub take : ℕ → Codes → Codes
take zero cs = []
take (suc n) [] = []
take (suc n) (c ∷ cs) = c ∷ take n cs

-- a date and a yield in percent
abbrev pub Candidate : Type 0 → Type 0
Candidate F = ℕ × F

-- candidates.append(…), where there is one
abbrev pub and_more : {F : Type 0} → Option (Candidate F) → List (Candidate F) → List (Candidate F)
and_more none cs = cs
and_more (some c) cs = c ∷ cs

module _ {F : Type 0} ⦃f : Float F⦄ (r : Reader F) where
  -- _parse_date
  unfoldable pub parse_date : Codes → Option ℕ
  unfolding strip replace_z take
  parse_date value =
      let iso = replace_z (strip value) in
      elim (r.datetime_date iso) [ some d ↦ some d | none ↦ r.iso_date (take 10 iso) ]

  -- a date and a yield that is read and not negative; -1 stands for one that is not read
  unfoldable pub candidate : Codes → Codes → Option (Candidate F)
  unfolding parse_date
  candidate date' raw = elim (parse_date date') [
    | none ↦ none
    | some d ↦ elim (r.parse_float raw) [
      | none ↦ none
      | some x ↦ if f.le f.nought x then some (d, x) else none
    ]
  ]

  -- the candidate of one entry, from its values
  unfoldable pub candidate_of : String → Dict Codes → Option (Candidate F)
  unfolding raw_date is_missing candidate
  candidate_of field_name values = elim (raw_date values) [
    | none ↦ none
    | some date' ↦ elim (filled (Dict.get field_name values)) [
      | none ↦ none
      | some raw ↦ if is_missing raw then none else candidate date' raw
    ]
  ]

  -- the loop over root.iter(), which goes on with an <entry> and skips the rest
  unfoldable pub candidates : String → List Element → List (Candidate F)
  unfolding local_name candidate_of values_of iter
  candidates field_name [] = []
  candidates field_name (e ∷ es) =
      let rest = candidates field_name es in
      if local_name (tag_of e) == "entry"
      then and_more (candidate_of field_name (values_of (iter e) [])) rest
      else rest

-- max(…, key=lambda item: item[0]) of a first item and more: the first of the greatest
unfoldable pub newest_from : {F : Type 0} → Candidate F → List (Candidate F) → Candidate F
newest_from best [] = best
newest_from best (c ∷ cs) = newest_from (if ltb best.0 c.0 then c else best) cs

-- max(…, default=None, …)
unfoldable pub newest : {F : Type 0} → List (Candidate F) → Option (Candidate F)
unfolding newest_from
newest [] = none
newest (c ∷ cs) = some (newest_from c cs)

-- How parse_yield_curve ends: a value, None, or ParseError.
pub data Parsed (F : Type 0) : Type 0 where
  found : Candidate F → Parsed F
  nothing_usable unparseable : Parsed F

abbrev pub parsed_of : {F : Type 0} → Option (Candidate F) → Parsed F
parsed_of none = nothing_usable
parsed_of (some c) = found c

unfoldable pub parse_yield_curve :
    {F : Type 0} ⦃f : Float F⦄ → Reader F → String → String → Parsed F
unfolding candidates newest iter
parse_yield_curve r xml field_name = elim (r.fromstring xml) [
  | none ↦ unparseable
  | some root ↦ parsed_of (newest (candidates r field_name (iter root)))
]
