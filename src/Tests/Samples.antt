-- ===== src/Tests/Samples.antt =====
-- A platform and accounts to run the definitions on.
use irg_gdp.Base.{ℕ, ◌+◌, ◌*◌, true, false, ◌&&◌, none, some, List, [], ◌∷◌, leb, ◌==◌, ==_refl}
use Prim.Native.Nat.{◌/◌}
use irg_gdp.Base.Int.{ℤ, negsuc, pos}
use irg_gdp.Base.Text.{Text, codes}
use irg_gdp.Wallet.Model.{
  Account, Wallet, WalletState, created, activated, individual, blank, Nominee, User, RecoveryCase,
  trustee, awaiting_ombudsman,
}
use irg_gdp.Wallet.Policy.{Platform}
use irg_gdp.Wallet.Nominees.{NomineeInput}
use irg_gdp.Wallet.Activation.{Activation}
use irg_gdp.Wallet.Devices.{DeviceInput}

abbrev pub encode : Text → ℕ
encode [] = 0
encode (c ∷ s) = 1 + c + 256 * encode s

-- Rounding to the nearest, of a number that is not negative.
abbrev pub half_up : ℕ → ℤ → ℤ
half_up place (pos n) = pos ((n + place / 2) / place * place)
half_up place (negsuc n) = negsuc n

-- A hasher that keeps the password readable.
abbrev pub sample : Platform
sample = record {
  is_decimal = λ c. leb 48 c && leb c 57;
  is_space = λ c. c == 32;
  lower = λ s. s;
  make_password = λ p salt. encode p;
  check_password = λ p h. encode p == h;
  check_password-make_password = λ p salt. ==_refl (encode p);
  sha256 = encode;
  to_column = half_up;
}

abbrev pub password : Text
password = codes "gold2026"

abbrev pub new_password : Text
new_password = codes "silver2027"

abbrev pub wrong_password : Text
wrong_password = codes "lead0000"

abbrev pub word : Text
word = codes "amber"

abbrev pub words : List Text
words =
    word ∷ word ∷ word ∷ word ∷ word ∷ word ∷ word ∷ word ∷ word ∷ word ∷ word ∷ word ∷ word ∷ word
    ∷ word ∷ []

abbrev pub user : User
user = record { id = 7; email = codes "o@x"; mobile = codes "1"; login_password_hash = none }

abbrev pub stranger : User
stranger = record { id = 9; email = codes "z@x"; mobile = []; login_password_hash = none }

abbrev pub new_wallet : Wallet
new_wallet = record {
  address = 1;
  state = created;
  holder_type = individual;
  legal_entity_name = [];
  entity_type = blank;
  password_hash = none;
  password_salt = 0;
  seed_phrase_hash = none;
  seed_phrase_confirmed = false;
  seed_phrase_confirmed_at = none;
  failed_password_attempts = 0;
  locked_until = none;
  last_activity_at = none;
  inactivity_prompt_sent_at = none;
  inactivity_reminder_sent_at = none;
  nominees_alerted_at = none;
  created_at = 0;
  activated_at = none;
}

abbrev pub fresh : Account
fresh = record {
  user = user;
  wallet = new_wallet;
  nominees = [];
  devices = [];
  events = [];
  cases = [];
  transfers = [];
  outbox = [];
  chain_calls = [];
}

abbrev pub half : Text → NomineeInput
half mobile = record {
  name = codes "N";
  relationship = codes "sibling";
  email = codes "n@x";
  mobile = mobile;
  id_document_hash = [];
  share_percent = some (pos 50000000000000);
  social_recovery_threshold = none;
}

abbrev pub activation : Activation
activation = record {
  wallet_password = password;
  seed_phrase_words = words;
  holder_type = some individual;
  nominees = half (codes "2") ∷ half [] ∷ [];
  device_id_hash = codes "d";
  device_label = [];
  platform = [];
  terms_accepted = true;
  legal_entity_name = [];
  entity_type = none;
}

abbrev pub device : DeviceInput
device = record { device_id_hash = codes "e"; device_label = []; platform = [] }

-- The account with an activated wallet.
abbrev pub in_use : Account
in_use = record fresh {
  wallet = record new_wallet {
    state = activated;
    password_hash = some (encode password);
    activated_at = some 10;
    last_activity_at = some 10;
  };
}

abbrev pub nominee : Text → Nominee
nominee mobile = record {
  name = codes "N";
  relationship = codes "sibling";
  email = codes "n@x";
  mobile = mobile;
  id_document_hash = [];
  share_percent = pos 50000000000000;
  social_recovery_threshold = 2;
  active = true;
  revoked_at = none;
}

-- With two nominees, one of them without a mobile number.
abbrev pub with_nominees : Account
with_nominees = record in_use { nominees = nominee (codes "2") ∷ nominee [] ∷ [] }

abbrev pub claim : RecoveryCase
claim = record {
  id = 5;
  path = trustee;
  status = awaiting_ombudsman;
  claimant = 9;
  claimant_wallet_address = 2;
  grounds = [];
  evidence_bundle_hash = [];
  cooling_off_ends_at = none;
  public_notice_ends_at = some 100;
  recovery_requested_tx_hash = none;
  ombudsman_order_hash = none;
  ombudsman_order_tx_hash = none;
  execution_tx_hash = none;
  reversibility_ends_at = none;
}

abbrev pub with_claim : WalletState → Account
with_claim st = record in_use { wallet = record in_use.wallet { state = st }; cases = claim ∷ [] }
