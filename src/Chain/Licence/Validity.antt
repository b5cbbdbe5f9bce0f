-- ===== src/Chain/Licence/Validity.antt =====
-- What a licence that is valid says.
use irg_gdp.Base.{
  ℕ, ◌+◌, ◌≤◌, ◌≡◌, refl, Bool, true, false, Option, none, some, List, [], ◌∷◌, any, map,
  Option-cases, arith, inl, inr, ◌⊎◌, ap, ◌∙◌,
}
use irg_gdp.Base.Text.{Text, text_eq}
use irg_gdp.Wallet.Model.{Time}
use irg_gdp.Chain.Licence.Signature.{IsSigned, parts-IsSigned}
use irg_gdp.Chain.Licence.{
  Crypto, Deployment, Payload, Parsed, parsed, Check, checked, LicenceReason, TokenFile, contents,
  token_not_found, permission_denied, unreadable, LicenceState, started, Round,
  compute_deployment_fingerprint, b64url_decode, split_dots, decode_parts, parse_parts, parse_token,
  licence_error, parse_raised, is_version_2, field_or, check_product, check_fingerprint,
  check_issued, check_payload, verify_token, verify_once, verify_licence_or_die, recheck,
  recheck_loop, check_raised, store_check,
}

-- The payload is of version 2, was issued at most 300 s in the future, for this deployment, and
-- lists the product.
pub record IsGranted (c : Crypto) (d : Deployment) (now : Time) (product : Text) (p : Payload)
    : Type 0 where
  pub issued : ℕ
  pub fingerprint : Text
  pub products : List Text
  pub of_version_2 : is_version_2 p.v ≡ true
  pub issued_at : field_or 0 p.iat ≡ some issued
  pub not_in_future : issued ≤ now + 300
  pub issued_for : field_or [] p.fp ≡ some fingerprint
  pub here : text_eq (c.lower fingerprint) (compute_deployment_fingerprint c d) ≡ true
  pub listed : field_or [] p.products ≡ some products
  pub licensed : any (text_eq (c.upper product)) (map c.upper products) ≡ true

abbrev pub is_good : Check → Bool
is_good (checked b r p) = b
is_good _ = false

check_payload-IsGranted :
    (c : Crypto) (d : Deployment) (now : Time) (product : Text) (p : Payload)
    → is_good (check_payload c d now product p) ≡ true
    → IsGranted c d now product p
unfolding check_payload check_issued check_fingerprint check_product
check_payload-IsGranted c d now product p h = elim (Option-cases (field_or 0 p.iat)) [
  | inl e ↦ ground arith
  | inr (i, e) ↦ elim (Option-cases (field_or [] p.fp)) [
    | inl f ↦ ground arith
    | inr (x, f) ↦ elim (Option-cases (field_or [] p.products)) [
      | inl g ↦ ground arith
      | inr (ps, g) ↦ record {
        issued = i;
        fingerprint = x;
        products = ps;
        of_version_2 = ground arith;
        issued_at = e;
        not_in_future = ground arith;
        issued_for = f;
        here = ground arith;
        listed = g;
        licensed = ground arith;
      }
    ]
  ]
]

-- A payload, and when and from which token it was accepted; `K` holds of the checks that were made,
-- each a file and a time.
pub record IsLicensed (c : Crypto) (d : Deployment) (product : Text) (K : TokenFile → Time → Type 0)
    (q : Option Payload) : Type 0 where
  pub accepted : Payload
  pub token : Text
  pub at : Time
  pub was_checked : K (contents token) at
  pub stored : q ≡ some accepted
  pub is_signed : IsSigned c d token accepted
  pub is_granted : IsGranted c d at product accepted

check_payload-stored :
    (c : Crypto) (d : Deployment) (now : Time) (product : Text) (p : Payload) (r : LicenceReason)
    (q : Option Payload)
    → check_payload c d now product p ≡ checked true r q
    → (is_good (check_payload c d now product p) ≡ true) × (q ≡ some p)
unfolding check_payload check_issued check_fingerprint check_product
check_payload-stored c d now product p r q h = ground arith

Parsed-cases :
    (x : Parsed)
    → ((p : Payload) × (x ≡ parsed p))
      ⊎ (((r : LicenceReason) × (x ≡ licence_error r)) ⊎ (x ≡ parse_raised))
Parsed-cases (parsed p) = inl (p, refl)
Parsed-cases (licence_error r) = inr (inl (r, refl))
Parsed-cases parse_raised = inr (inr refl)

token-IsLicensed :
    (c : Crypto) (d : Deployment) (K : TokenFile → Time → Type 0) (now : Time) (product raw : Text)
    (r : LicenceReason) (q : Option Payload)
    → K (contents raw) now
    → verify_token c d now product raw ≡ checked true r q
    → IsLicensed c d product K q
unfolding verify_token parse_token
token-IsLicensed c d K now product raw r q known h =
    elim (Parsed-cases (parse_token c d (c.strip raw))) [
      | inr (inl (e, f)) ↦ ground arith
      | inr (inr f) ↦ ground arith
      | inl (p, f) ↦
          let g : check_payload c d now product p ≡ checked true r q = ground arith in
          let (good, k) = check_payload-stored c d now product p r q g in
          record {
            accepted = p;
            token = raw;
            at = now;
            was_checked = known;
            stored = k;
            is_signed = parts-IsSigned c d raw (split_dots (c.strip (c.strip raw))) p refl f;
            is_granted = check_payload-IsGranted c d now product p good;
          }
    ]

verify_once-IsLicensed :
    (c : Crypto) (d : Deployment) (K : TokenFile → Time → Type 0) (file : TokenFile) (now : Time)
    (product : Text)
    → K file now
    → (r : LicenceReason) (q : Option Payload) → verify_once c d file now product ≡ checked true r q
    → IsLicensed c d product K q
unfolding verify_once
verify_once-IsLicensed c d K token_not_found now product known r q h = ground arith
verify_once-IsLicensed c d K permission_denied now product known r q h = ground arith
verify_once-IsLicensed c d K unreadable now product known r q h = ground arith
verify_once-IsLicensed c d K (contents raw) now product known r q h =
    token-IsLicensed c d K now product raw r q known h

recheck-IsLicensed :
    (c : Crypto) (d : Deployment) (K : TokenFile → Time → Type 0) (product : Text) (t t' : Time)
    (x : Check) (s : LicenceState)
    → ((r : LicenceReason) (q : Option Payload) → x ≡ checked true r q → IsLicensed c d product K q)
    → (s.valid ≡ true → IsLicensed c d product K s.payload)
    → (recheck t t' x s).valid ≡ true
    → IsLicensed c d product K (recheck t t' x s).payload
unfolding recheck store_check
recheck-IsLicensed c d K product t t' check_raised s ok keep v = keep v
recheck-IsLicensed c d K product t t' (checked true r q) s ok keep v = ok r q refl
recheck-IsLicensed c d K product t t' (checked false r q) s ok keep v = ground arith

-- What holds of the checks of all rounds.
abbrev pub AllKnown : (TokenFile → Time → Type 0) → List Round → Type 0
AllKnown K [] = Unit
AllKnown K (r ∷ rs) = K r.file r.now × AllKnown K rs

-- The check of a file at a time is that of one of the rounds.
abbrev pub InRounds : List Round → TokenFile → Time → Type 0
InRounds [] file now = true ≡ false
InRounds (r ∷ rs) file now = ((file ≡ r.file) × (now ≡ r.now)) ⊎ InRounds rs file now

AllKnown-mono :
    (K L : TokenFile → Time → Type 0) (rs : List Round)
    → ((file : TokenFile) (now : Time) → K file now → L file now)
    → AllKnown K rs
    → AllKnown L rs
AllKnown-mono K L [] f h = tt
AllKnown-mono K L (r ∷ rs) f (h, hs) = (f r.file r.now h, AllKnown-mono K L rs f hs)

AllKnown-InRounds : (rs : List Round) → AllKnown (InRounds rs) rs
AllKnown-InRounds [] = tt
AllKnown-InRounds (r ∷ rs) = (
  inl (refl, refl),
  AllKnown-mono (InRounds rs) (InRounds (r ∷ rs)) rs (λ file now h. inr h) (AllKnown-InRounds rs),
)

-- The check of the start, or that of a round.
abbrev pub WasMade : TokenFile → Time → List Round → TokenFile → Time → Type 0
WasMade file now rs file' now' = ((file' ≡ file) × (now' ≡ now)) ⊎ InRounds rs file' now'

loop-IsLicensed :
    (c : Crypto) (d : Deployment) (K : TokenFile → Time → Type 0) (product : Text) (rs : List Round)
    (s : LicenceState)
    → AllKnown K rs
    → (s.valid ≡ true → IsLicensed c d product K s.payload)
    → (recheck_loop c d product rs s).valid ≡ true
    → IsLicensed c d product K (recheck_loop c d product rs s).payload
unfolding recheck_loop
loop-IsLicensed c d K product [] s known keep v = keep v
loop-IsLicensed c d K product (r ∷ rs) s (known, others) keep v =
    let x = verify_once c d r.file r.now product in
    loop-IsLicensed c d K product rs (recheck r.checked_at r.good_at x s) others
      (recheck-IsLicensed c d K product r.checked_at r.good_at x s
        (verify_once-IsLicensed c d K r.file r.now product known) keep)
      v

start-IsLicensed :
    (c : Crypto) (d : Deployment) (K : TokenFile → Time → Type 0) (product : Text) (t t' : Time)
    (is_test : Bool) (x : Check) (s : LicenceState)
    → ((r : LicenceReason) (q : Option Payload) → x ≡ checked true r q → IsLicensed c d product K q)
    → (verify_licence_or_die t t' is_test x s).0 ≡ started
    → IsLicensed c d product K (verify_licence_or_die t t' is_test x s).1.payload
unfolding verify_licence_or_die store_check
start-IsLicensed c d K product t t' is_test check_raised s ok h = ground arith
start-IsLicensed c d K product t t' is_test (checked true r q) s ok h = ok r q refl
start-IsLicensed c d K product t t' true (checked false r q) s ok h = ground arith
start-IsLicensed c d K product t t' false (checked false r q) s ok h = ground arith

-- After a start that goes through, and any rounds of checks, a state that says the licence is valid
-- holds the payload of a token that the start or one of the rounds found in the file, whose two parts
-- decode and whose signature the key of 32 bytes verifies. It is of version 2, for this deployment and
-- for the product, and was issued at most 300 seconds after the time of that check.
pub valid-IsLicensed :
    (c : Crypto) (d : Deployment) (product : Text) (file : TokenFile) (now t t' : Time)
    (is_test : Bool) (rs : List Round) (s : LicenceState)
    → (verify_licence_or_die t t' is_test (verify_once c d file now product) s).0 ≡ started
    → (recheck_loop c d product rs
        (verify_licence_or_die t t' is_test (verify_once c d file now product) s).1).valid
      ≡ true
    → IsLicensed c d product
        (WasMade file now rs)
        (recheck_loop c d product rs
          (verify_licence_or_die t t' is_test (verify_once c d file now product) s).1).payload
valid-IsLicensed c d product file now t t' is_test rs s h v =
    let x = verify_once c d file now product in
    let K = WasMade file now rs in
    loop-IsLicensed c d K product rs (verify_licence_or_die t t' is_test x s).1
      (AllKnown-mono (InRounds rs) K rs (λ file' now' g. inr g) (AllKnown-InRounds rs))
      (λ _.
        start-IsLicensed c d K product t t' is_test x s
          (verify_once-IsLicensed c d K file now product (inl (refl, refl))) h)
      v

abbrev pub AllHold : Text → List Round → Type 0
AllHold raw [] = Unit
AllHold raw (r ∷ rs) = (r.file ≡ contents raw) × AllHold raw rs

undecodable_raises :
    (c : Crypto) (d : Deployment) (now : Time) (product raw a b : Text)
    → split_dots (c.strip (c.strip raw)) ≡ a ∷ b ∷ []
    → b64url_decode c a ≡ none
    → verify_once c d (contents raw) now product ≡ check_raised
unfolding verify_once verify_token parse_token decode_parts
undecodable_raises c d now product raw a b e f =
    let g : decode_parts c d a b ≡ parse_raised = ground arith in
    let h : parse_token c d (c.strip raw) ≡ parse_raised = ap (parse_parts c d) e ∙ g in
    ground arith

-- If every round finds a token whose first part is not base64, the state stays as it was: a licence
-- that was valid stays valid.
pub undecodable_changes_nothing :
    (c : Crypto) (d : Deployment) (product raw a b : Text) (rs : List Round) (s : LicenceState)
    → split_dots (c.strip (c.strip raw)) ≡ a ∷ b ∷ []
    → b64url_decode c a ≡ none
    → AllHold raw rs
    → recheck_loop c d product rs s ≡ s
unfolding recheck_loop recheck
undecodable_changes_nothing c d product raw a b [] s e f hs = refl
undecodable_changes_nothing c d product raw a b (r ∷ rs) s e f (h, hs) =
    rw (h, undecodable_raises c d r.now product raw a b e f)
      (undecodable_changes_nothing c d product raw a b rs s e f hs)
