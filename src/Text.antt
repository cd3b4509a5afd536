-- ===== src/Text.antt =====
-- The `str` methods that the program walks a text with, over its code points. `upper` is exact on
-- ASCII and leaves every other code point alone.
use Prim.Native.Char.{code}
use Prim.Native.String as NativeString
use asset_embedding_protocol.Prelude.{
  ℕ, ◌-◌, ◌≡◌, refl, ◌↔◌, String, Bool, true, false, List, [], ◌∷◌, map, ◌&&◌, ◌||◌, leb, ◌==◌, Eq,
  nat_eq, string_eq, if◌then◌else◌, arith, is_nonempty, not,
}

abbrev pub Codes : Type 0
Codes = List ℕ

abbrev pub codes : String → Codes
codes String.[] = []
codes (String.◌∷◌ c s) = code c ∷ codes s

-- Equality of two texts by their code points.
unfoldable pub codes_beq : Codes → Codes → Bool
codes_beq [] [] = true
codes_beq [] (b ∷ bs) = false
codes_beq (a ∷ as') [] = false
codes_beq (a ∷ as') (b ∷ bs) = (a == b) && codes_beq as' bs

pub codes_beq_to : (a b : Codes) → codes_beq a b ≡ true → a ≡ b
unfolding codes_beq
codes_beq_to [] [] h = refl
codes_beq_to [] (b ∷ bs) h = ground arith
codes_beq_to (a ∷ as') [] h = ground arith
codes_beq_to (a ∷ as') (b ∷ bs) h = ground (arith, codes_beq_to as' bs)

codes_beq_refl : (a : Codes) → codes_beq a a ≡ true
unfolding codes_beq
codes_beq_refl [] = refl
codes_beq_refl (a ∷ as') = ground (arith, codes_beq_refl as')

codes_beq_of : (a b : Codes) → a ≡ b → codes_beq a b ≡ true
codes_beq_of a b h = rw h (codes_beq_refl b)

pub codes_beq_iff : (a b : Codes) → (codes_beq a b ≡ true) ↔ (a ≡ b)
codes_beq_iff a b = (codes_beq_to a b, codes_beq_of a b)

instance abbrev pub codes_eq : Eq Codes
codes_eq = record { beq = codes_beq; beq_iff = codes_beq_iff }

-- str.isspace
is_space : ℕ → Bool
is_space c =
    (leb 9 c && leb c 13)
    || (leb 28 c && leb c 32)
    || c == 0x85
    || c == 0xa0
    || c == 0x1680
    || (leb 0x2000 c && leb c 0x200a)
    || c == 0x2028
    || c == 0x2029
    || c == 0x202f
    || c == 0x205f
    || c == 0x3000

-- str.lstrip() and str.rstrip()
lstrip : Codes → Codes
lstrip [] = []
lstrip (c ∷ cs) = let rest = lstrip cs in if is_space c then rest else c ∷ cs

keep_before : ℕ → Codes → Codes
keep_before c rest = if is_space c && not (is_nonempty rest) then [] else c ∷ rest

rstrip : Codes → Codes
rstrip [] = []
rstrip (c ∷ cs) = keep_before c (rstrip cs)

-- str.strip()
unfoldable pub strip : Codes → Codes
unfolding lstrip rstrip keep_before is_space
strip cs = rstrip (lstrip cs)

-- str.upper()
unfoldable pub upper : Codes → Codes
upper = map (λ c. if leb b'a' c && leb c b'z' then c - 32 else c)

pub is_nonempty-upper : (cs : Codes) → is_nonempty (upper cs) ≡ is_nonempty cs
unfolding upper
is_nonempty-upper [] = refl
is_nonempty-upper (c ∷ cs) = refl

-- The first part of a split grows by a character.
abbrev extend : ℕ → List Codes → List Codes
extend c [] = (c ∷ []) ∷ []
extend c (p ∷ ps) = (c ∷ p) ∷ ps

-- str.split(",")
unfoldable pub split_commas : Codes → List Codes
split_commas [] = [] ∷ []
split_commas (c ∷ cs) = let rest = split_commas cs in if c == b',' then [] ∷ rest else extend c rest

-- a + b
abbrev pub concat : String → String → String
concat a b = NativeString.◌++◌ a b
