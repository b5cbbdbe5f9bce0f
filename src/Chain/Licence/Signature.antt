-- ===== src/Chain/Licence/Signature.antt =====
-- The signature of a token that is accepted.
use irg_gdp.Base.{◌≡◌, true, some, List, [], ◌∷◌, length, Option-cases, arith, inl, inr}
use irg_gdp.Base.Text.{Text}
use irg_gdp.Chain.Licence.{
  Crypto, Deployment, Payload, parsed, Json, object, Bytes, b64url_decode, split_dots, loaded,
  verified_payload, decode_parts, parse_parts, not_json, not_object,
}

-- The two parts of the token, what they decode to, and the key that verifies them.
pub record IsSigned (c : Crypto) (d : Deployment) (raw : Text) (p : Payload) : Type 0 where
  pub first : Text
  pub second : Text
  pub message : Bytes
  pub signature : Bytes
  pub public_key : Bytes
  pub in_parts : split_dots (c.strip (c.strip raw)) ≡ first ∷ second ∷ []
  pub first_decoded : b64url_decode c first ≡ some message
  pub second_decoded : b64url_decode c second ≡ some signature
  pub key_read : c.fromhex d.public_key_hex ≡ some public_key
  pub key_length : length public_key ≡ 32
  pub verified : c.verify_ed25519 message signature public_key ≡ true
  pub read : c.loads message ≡ object p

loaded-object : (j : Json) (p : Payload) → loaded j ≡ parsed p → j ≡ object p
loaded-object (object q) p h = cc
loaded-object not_json p h = ground arith
loaded-object not_object p h = ground arith

signed :
    (c : Crypto) (d : Deployment) (raw a b : Text) (p : Payload)
    → split_dots (c.strip (c.strip raw)) ≡ a ∷ b ∷ []
    → decode_parts c d a b ≡ parsed p
    → IsSigned c d raw p
unfolding decode_parts verified_payload
signed c d raw a b p e h = elim (Option-cases (b64url_decode c a)) [
  | inl f ↦ ground arith
  | inr (m, f) ↦ elim (Option-cases (b64url_decode c b)) [
    | inl g ↦ ground arith
    | inr (s, g) ↦ elim (Option-cases (c.fromhex d.public_key_hex)) [
      | inl k ↦ ground arith
      | inr (key, k) ↦ record {
        first = a;
        second = b;
        message = m;
        signature = s;
        public_key = key;
        in_parts = e;
        first_decoded = f;
        second_decoded = g;
        key_read = k;
        key_length = ground arith;
        verified = ground arith;
        read = ground (arith, loaded-object (c.loads m) p);
      }
    ]
  ]
]

pub parts-IsSigned :
    (c : Crypto) (d : Deployment) (raw : Text) (ps : List Text) (p : Payload)
    → split_dots (c.strip (c.strip raw)) ≡ ps
    → parse_parts c d ps ≡ parsed p
    → IsSigned c d raw p
parts-IsSigned c d raw [] p e h = ground arith
parts-IsSigned c d raw (a ∷ []) p e h = ground arith
parts-IsSigned c d raw (a ∷ b ∷ []) p e h = signed c d raw a b p e h
parts-IsSigned c d raw (a ∷ b ∷ x ∷ ps) p e h = ground arith
