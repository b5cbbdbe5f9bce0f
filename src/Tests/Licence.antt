-- ===== src/Tests/Licence.antt =====
-- A licence at a concrete start, with libraries that are simple functions.
use irg_gdp.Base.{◌≡◌, refl, true, false, none, some, [], ◌∷◌, any, ◌==◌, if◌then◌else◌}
use irg_gdp.Base.Text.{Text, text_eq, codes}
use irg_gdp.Chain.Licence.{
  Crypto, Deployment, Payload, given, object, contents, LicenceState, not_checked, Round,
  equal_signs, padded, split_dots, verify_licence_or_die, recheck_loop, verify_once, ok,
}
use irg_gdp.Chain.Licence.Validity.{
  IsLicensed, WasMade, valid-IsLicensed, undecodable_changes_nothing,
}

abbrev payload : Payload
payload = record {
  v = given 2;
  iat = given 1000;
  fp = given (codes "ff");
  products = given (codes "GDP" ∷ []);
}

-- A text with an exclamation mark is not base64; a message is its own signature.
abbrev libraries : Crypto
libraries = record {
  strip = λ s. s;
  lower = λ s. s;
  upper = λ s. s;
  urlsafe_b64decode = λ s. if any (λ x. x == 33) s then none else some s;
  fromhex = λ s. some (equal_signs 32);
  verify_ed25519 = λ m s k. text_eq m s;
  loads = λ m. object payload;
  encode = λ s. s;
  sha256_hex = λ bs. codes "ff";
}

abbrev server : Deployment
server = record {
  public_key_hex = codes "3d";
  primary_mac = codes "0a";
  hostname = codes "irg";
  chain_id = codes "888101";
  build_version = codes "v1.0";
}

abbrev unchecked : LicenceState
unchecked = record {
  valid = false;
  reason = not_checked;
  payload = none;
  last_good_at = 0;
  last_check_at = 0;
  thread_started = false;
}

abbrev licensed : LicenceState
licensed = record {
  valid = true;
  reason = ok;
  payload = some payload;
  last_good_at = 2000;
  last_check_at = 2000;
  thread_started = true;
}

abbrev round_of : Text → Round
round_of raw = record { file = contents raw; now = 5600; checked_at = 5600; good_at = 5600 }

-- A good token at the start, and again in the next round.
valid-IsLicensed_example :
    IsLicensed libraries server
      (codes "GDP")
      (WasMade (contents (codes "p.p")) 2000 (round_of (codes "p.p") ∷ []))
      (recheck_loop libraries server
        (codes "GDP")
        (round_of (codes "p.p") ∷ [])
        (verify_licence_or_die 2000 2000 false
          (verify_once libraries server (contents (codes "p.p")) 2000 (codes "GDP"))
          unchecked).1).payload
unfolding verify_licence_or_die verify_once recheck_loop padded
valid-IsLicensed_example =
    valid-IsLicensed libraries server (codes "GDP") (contents (codes "p.p")) 2000 2000 2000 false
      (round_of (codes "p.p") ∷ []) unchecked refl refl

undecodable_changes_nothing_example :
    recheck_loop libraries server (codes "GDP") (round_of (codes "!.p") ∷ []) licensed ≡ licensed
unfolding split_dots padded
undecodable_changes_nothing_example =
    undecodable_changes_nothing libraries server (codes "GDP") (codes "!.p") (codes "!") (codes "p")
      (round_of (codes "!.p") ∷ []) licensed refl refl (refl, tt)
