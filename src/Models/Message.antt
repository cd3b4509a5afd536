-- ===== src/Models/Message.antt =====
-- models.py: the intent, the proof and the envelope.
use asset_embedding_protocol.Prelude.{
  List, [], ◌∷◌, ℕ, ◌==◌, ◌+◌, ◌*◌, String, Bool, true, false, not, Option, none, some, ◌&&◌, ltb,
  leb, nat_eq, string_eq,
}
use asset_embedding_protocol.Prelude.Int.{ℤ, ltb_ℤ, pos, negsuc}
use asset_embedding_protocol.Number.{Float}
use asset_embedding_protocol.Dict.{Dict, get}
use asset_embedding_protocol.Models.Policy.{
  Action, VerificationTier, AgentIdentity, Principal, DelegationLink, Boundaries,
  monetary_limit_valid,
}

-- `Any` of a parsed JSON document. A list and a dict of values are types of the block.
mutual
  pub data Value (F : Type 0) : Type 0 where
    null : Value F
    bool : Bool → Value F
    int : ℤ → Value F
    float : F → Value F
    text : String → Value F
    array : Items F → Value F
    object : Fields F → Value F

  pub data Items (F : Type 0) : Type 0 where
    nil : Items F
    cons : Value F → Items F → Items F

  pub data Fields (F : Type 0) : Type 0 where
    end : Fields F
    field : String → Value F → Fields F → Fields F

pub record Intent (F : Type 0) : Type 0 where
  pub action : Action
  pub target : String
  pub parameters : Dict (Value F)

pub record Proof : Type 0 where
  pub kind : String
  pub created : ℕ
  pub verification_method : String
  pub proof_purpose : String
  pub proof_value : String

pub record CustosEnvelope (F : Type 0) : Type 0 where
  pub context : String
  pub kind : String
  pub protocol_version : String
  pub agent : AgentIdentity
  pub principal : Principal F
  pub intent : Intent F
  pub boundaries : Boundaries F
  pub verification_tier : VerificationTier
  pub entropy : String
  pub ttl : ℕ
  pub issued_at : ℕ
  pub expires_at : ℕ
  pub proof : Option Proof

-- a second, in microseconds
abbrev pub second : ℕ
second = 1_000_000

module _ {F : Type 0} ⦃f : Float F⦄ where
  -- Intent._amount_is_non_negative
  unfoldable pub amount_is_non_negative : Option (Value F) → Bool
  amount_is_non_negative none = true
  amount_is_non_negative (some null) = true
  amount_is_non_negative (some (int n)) = not (ltb_ℤ n (pos 0))
  amount_is_non_negative (some (float x)) = not (f.lt x f.nought)
  amount_is_non_negative (some v) = false

  -- CustosEnvelope._bounded_span
  unfoldable pub bounded_span : CustosEnvelope F → Bool
  bounded_span e = ltb e.issued_at e.expires_at && leb e.expires_at (e.issued_at + 86400 * second)

  links_valid : List (DelegationLink F) → Bool
  links_valid [] = true
  links_valid (l ∷ ls) = monetary_limit_valid l.boundaries.monetary_limit && links_valid ls

  -- the constraints on an envelope that its constructors check
  unfoldable pub envelope_valid : CustosEnvelope F → Bool
  unfolding amount_is_non_negative bounded_span monetary_limit_valid links_valid
  envelope_valid e =
      monetary_limit_valid e.boundaries.monetary_limit
      && links_valid e.principal.delegation_chain
      && amount_is_non_negative (get "amount" e.intent.parameters)
      && (leb 1 e.ttl && leb e.ttl 86400)
      && bounded_span e

-- bool(value)
unfoldable pub is_truthy : {F : Type 0} ⦃f : Float F⦄ → Value F → Bool
is_truthy null = false
is_truthy (bool b) = b
is_truthy (int (pos n)) = not (n == 0)
is_truthy (int (negsuc n)) = true
is_truthy ⦃f = f⦄ (float x) = not (f.eq x f.nought)
is_truthy (text s) = not (s == "")
is_truthy (array nil) = false
is_truthy (array (cons v vs)) = true
is_truthy (object end) = false
is_truthy (object (field k v fs)) = true
