-- ===== src/Chain/Licence.antt =====
-- backend/chain/licence_guard.py: the token of the licence, its check at the start, and the checks
-- that follow every hour.
pub mod Signature
pub mod Validity
pub mod Padding
use irg_gdp.Base.{
  ℕ, ◌+◌, ◌-◌, Bool, zero, suc, true, false, ◌&&◌, Option, none, some, List, [], ◌∷◌, ◌++◌, any,
  map, not, ltb, ◌==◌, if◌then◌else◌, length,
}
use irg_gdp.Base.Text.{Text, text_eq, codes}
use Prim.Native.Nat.{◌%◌}
use irg_gdp.Wallet.Model.{Time}

abbrev pub Bytes : Type 0
Bytes = List ℕ

-- A field of the payload: it is missing, or it has a value, or a value that the code cannot use, on
-- which it raises.
pub data Field (A : Type 0) : Type 0 where
  absent ill_typed : Field A
  given : A → Field A

pub record Payload : Type 0 where
  pub v : Field ℕ
  pub iat : Field ℕ
  pub fp : Field Text
  pub products : Field (List Text)

-- What `json.loads` does: it answers an object, or raises JSONDecodeError, or the code raises
-- another error (a text that is not UTF-8, a value that is not an object).
pub data Json : Type 0 where
  object : Payload → Json
  not_json not_object : Json

-- The functions of Python's libraries and of the package cryptography; `none` where they raise.
pub record Crypto : Type 0 where
  pub strip : Text → Text
  pub lower : Text → Text
  pub upper : Text → Text
  pub urlsafe_b64decode : Text → Option Bytes
  pub fromhex : Text → Option Bytes
  pub verify_ed25519 : Bytes → Bytes → Bytes → Bool
  pub loads : Bytes → Json
  pub encode : Text → Bytes
  pub sha256_hex : Bytes → Text

-- What the deployment sets: the key, and what the fingerprint is made of.
pub record Deployment : Type 0 where
  pub public_key_hex : Text
  pub primary_mac : Text
  pub hostname : Text
  pub chain_id : Text
  pub build_version : Text

pub data TokenFile : Type 0 where
  token_not_found permission_denied unreadable : TokenFile
  contents : Text → TokenFile

pub data LicenceReason : Type 0 where
  not_checked ok token_missing permission malformed_token bad_public_key_config : LicenceReason
  bad_public_key_length bad_signature bad_payload_json unsupported_version : LicenceReason
  issued_in_future fingerprint_mismatch product_not_licensed : LicenceReason

pub data Parsed : Type 0 where
  parsed : Payload → Parsed
  licence_error : LicenceReason → Parsed
  parse_raised : Parsed

pub data Check : Type 0 where
  checked : Bool → LicenceReason → Option Payload → Check
  check_raised : Check

unfoldable pub compute_deployment_fingerprint : Crypto → Deployment → Text
compute_deployment_fingerprint c d =
    let bar = codes "|" in
    c.sha256_hex (
      codes "irg-fingerprint-v1"
      ++ (c.encode d.primary_mac
          ++ (bar
              ++ (c.encode d.hostname
                  ++ (bar ++ (c.encode d.chain_id ++ (bar ++ c.encode d.build_version)))))))

abbrev pub equal_signs : ℕ → Text
equal_signs zero = []
equal_signs (suc n) = 61 ∷ equal_signs n

-- `s + "=" * (-len(s) % 4)`
unfoldable pub padded : Text → Text
padded s = s ++ equal_signs ((4 - length s % 4) % 4)

abbrev pub b64url_decode : Crypto → Text → Option Bytes
b64url_decode c s = c.urlsafe_b64decode (padded s)

-- `token.split(".")`
unfoldable pub split_dots : Text → List Text
split_dots [] = [] ∷ []
split_dots (x ∷ s) =
    let rest = split_dots s in
    if x == 46 then [] ∷ rest else elim rest [ [] ↦ (x ∷ []) ∷ [] | p ∷ ps ↦ (x ∷ p) ∷ ps ]

abbrev pub loaded : Json → Parsed
loaded (object p) = parsed p
loaded not_json = licence_error bad_payload_json
loaded not_object = parse_raised

unfoldable pub verified_payload : Crypto → Deployment → Bytes → Bytes → Parsed
verified_payload c d payload_b sig = elim (c.fromhex d.public_key_hex) [
  | none ↦ licence_error bad_public_key_config
  | some pubkey ↦
      if not (length pubkey == 32)
      then licence_error bad_public_key_length
      else if not (c.verify_ed25519 payload_b sig pubkey)
      then licence_error bad_signature
      else loaded (c.loads payload_b)
]

unfoldable pub decode_parts : Crypto → Deployment → Text → Text → Parsed
unfolding verified_payload
decode_parts c d p q = elim (b64url_decode c p) [
  | none ↦ parse_raised
  | some payload_b ↦ elim (b64url_decode c q) [
    | none ↦ parse_raised
    | some sig ↦ verified_payload c d payload_b sig
  ]
]

-- `if len(parts) != 2`
abbrev pub parse_parts : Crypto → Deployment → List Text → Parsed
parse_parts c d (p ∷ (q ∷ [])) = decode_parts c d p q
parse_parts c d _ = licence_error malformed_token

unfoldable pub parse_token : Crypto → Deployment → Text → Parsed
unfolding split_dots decode_parts
parse_token c d token = parse_parts c d (split_dots (c.strip token))

abbrev pub is_version_2 : Field ℕ → Bool
is_version_2 (given n) = n == 2
is_version_2 _ = false

abbrev pub field_or : {A : Type 0} → A → Field A → Option A
field_or x absent = some x
field_or x ill_typed = none
field_or x (given y) = some y

unfoldable pub check_product : Crypto → Text → Payload → Check
check_product c product p = elim (field_or [] p.products) [
  | none ↦ check_raised
  | some ps ↦
      if any (text_eq (c.upper product)) (map c.upper ps)
      then checked true ok (some p)
      else checked false product_not_licensed (some p)
]

unfoldable pub check_fingerprint : Crypto → Deployment → Text → Payload → Check
unfolding check_product compute_deployment_fingerprint
check_fingerprint c d product p = elim (field_or [] p.fp) [
  | none ↦ check_raised
  | some fp ↦
      if text_eq (c.lower fp) (compute_deployment_fingerprint c d)
      then check_product c product p
      else checked false fingerprint_mismatch (some p)
]

unfoldable pub check_issued : Crypto → Deployment → Time → Text → Payload → Check
unfolding check_fingerprint
check_issued c d now product p = elim (field_or 0 p.iat) [
  | none ↦ check_raised
  | some iat ↦
      if ltb (now + 300) iat
      then checked false issued_in_future (some p)
      else check_fingerprint c d product p
]

unfoldable pub check_payload : Crypto → Deployment → Time → Text → Payload → Check
unfolding check_issued
check_payload c d now product p =
    if is_version_2 p.v
    then check_issued c d now product p
    else checked false unsupported_version none

unfoldable pub verify_token : Crypto → Deployment → Time → Text → Text → Check
unfolding parse_token check_payload
verify_token c d now product raw = elim (parse_token c d (c.strip raw)) [
  | licence_error r ↦ checked false r none
  | parse_raised ↦ check_raised
  | parsed p ↦ check_payload c d now product p
]

unfoldable pub verify_once : Crypto → Deployment → TokenFile → Time → Text → Check
unfolding verify_token
verify_once c d token_not_found now product = checked false token_missing none
verify_once c d permission_denied now product = checked false permission none
verify_once c d unreadable now product = check_raised
verify_once c d (contents raw) now product = verify_token c d now product raw

pub record LicenceState : Type 0 where
  pub valid : Bool
  pub reason : LicenceReason
  pub payload : Option Payload
  pub last_good_at : Time
  pub last_check_at : Time
  pub thread_started : Bool

-- The writes under `_lock`; `time.time()` is called for each of the two times.
unfoldable pub store_check :
    Time → Time → Bool → LicenceReason → Option Payload → LicenceState → LicenceState
store_check t t' b r p s = record s {
  valid = b;
  reason = r;
  payload = p;
  last_check_at = t;
  last_good_at = if b then t' else s.last_good_at;
}

pub data Start : Type 0 where
  started : Start
  exited : LicenceReason → Start
  start_raised : Start

-- In the test mode the error is raised instead of the exit.
unfoldable pub verify_licence_or_die :
    Time → Time → Bool → Check → LicenceState → Start × LicenceState
unfolding store_check
verify_licence_or_die t t' is_test check_raised s = (start_raised, s)
verify_licence_or_die t t' is_test (checked true r p) s =
    (started, record (store_check t t' true r p s) { thread_started = true })
verify_licence_or_die t t' is_test (checked false r p) s =
    ((if is_test then start_raised else exited r), store_check t t' false r p s)

-- One round of `_recheck_loop`.
unfoldable pub recheck : Time → Time → Check → LicenceState → LicenceState
unfolding store_check
recheck t t' check_raised s = s
recheck t t' (checked b r p) s = store_check t t' b r p s

pub record Round : Type 0 where
  pub file : TokenFile
  pub now : Time
  pub checked_at : Time
  pub good_at : Time

unfoldable pub recheck_loop : Crypto → Deployment → Text → List Round → LicenceState → LicenceState
unfolding recheck verify_once
recheck_loop c d product [] s = s
recheck_loop c d product (r ∷ rs) s =
    recheck_loop c d product rs
      (recheck r.checked_at r.good_at (verify_once c d r.file r.now product) s)
