-- ===== src/Wallet/Policy.antt =====
-- The limits of backend/wallet_access/services.py, the password policy, the two hashes and what a notice may hold. A
-- duration is in seconds.
use irg_gdp.Base.{
  ℕ, ◌*◌, ◌≡◌, Bool, true, false, ◌&&◌, ◌||◌, Option, none, some, List, [], ◌∷◌, map, ltb, leb,
  ◌==◌, not, length, any, is_nonempty, if◌then◌else◌,
}
use irg_gdp.Base.Int.{ℤ}
use irg_gdp.Base.Text.{Text, codes, is_alpha, strip, split, join_spaces}
use irg_gdp.Wallet.Model.{Digest}

abbrev pub wallet_password_min_len : ℕ
wallet_password_min_len = 8

abbrev pub seed_phrase_word_count : ℕ
seed_phrase_word_count = 15

abbrev pub max_failed_password_attempts : ℕ
max_failed_password_attempts = 10

abbrev pub hours : ℕ → ℕ
hours n = n * 3600

abbrev pub days : ℕ → ℕ
days n = n * 86400

abbrev pub lock_duration : ℕ
lock_duration = hours 24

abbrev pub device_cooling_off : ℕ
device_cooling_off = hours 48

abbrev pub social_recovery_cooling_off : ℕ
social_recovery_cooling_off = days 7

abbrev pub trustee_public_notice : ℕ
trustee_public_notice = days 30

abbrev pub ownership_transfer_notice : ℕ
ownership_transfer_notice = days 30

abbrev pub reversibility_window : ℕ
reversibility_window = days 90

abbrev pub inactivity_prompt_after : ℕ
inactivity_prompt_after = days 365

abbrev pub inactivity_reminder_after_prompt : ℕ
inactivity_reminder_after_prompt = days 2

abbrev pub inactivity_nominees_after_reminder : ℕ
inactivity_nominees_after_reminder = days 2

-- What the service calls of Django's hashers, of `hashlib`, of Python's Unicode tables and of the database. Of the
-- hashers it relies on `check_password` accepting the password that a hash was made from.
pub record Platform : Type 0 where
  pub is_decimal : ℕ → Bool  -- `\d`
  pub is_space : ℕ → Bool
  pub lower : Text → Text
  pub make_password : Text → Digest → Digest  -- the password and the salt
  pub check_password : Text → Digest → Bool
  pub check_password-make_password :
      (p : Text) (salt : Digest) → check_password p (make_password p salt) ≡ true
  pub sha256 : Text → Digest
  -- What a decimal column of the database keeps of a number, by the units in its last place.
  pub to_column : ℕ → ℤ → ℤ

-- `check_password(p, h)` for a field that may be empty, which no password matches.
abbrev pub check_hash : Platform → Text → Option Digest → Bool
check_hash pf p none = false
check_hash pf p (some h) = pf.check_password p h

-- `_ALPHA_RE.search(p) and _DIGIT_RE.search(p)`
unfoldable pub is_complex : Platform → Text → Bool
is_complex pf p = any is_alpha p && any pf.is_decimal p

unfoldable pub is_passphrase : Platform → Text → Bool
is_passphrase pf p = leb 4 (length (split pf.is_space p)) && leb 20 (length p)

pub data PasswordFault : Type 0 where
  too_short too_simple same_as_login : PasswordFault

-- `_validate_wallet_password`: `none` if it returns, or the reason for which it raises
-- PasswordPolicyViolation.
unfoldable pub validate_wallet_password : Platform → Text → Option Digest → Option PasswordFault
validate_wallet_password pf p login =
    if ltb (length p) wallet_password_min_len
    then some too_short
    else if not (is_complex pf p || is_passphrase pf p)
    then some too_simple
    else if check_hash pf p login
    then some same_as_login
    else none

-- `w.strip().lower()`
abbrev pub normal_word : Platform → Text → Text
normal_word pf w = pf.lower (strip pf.is_space w)

-- `_hash_seed_phrase`
unfoldable pub hash_seed_phrase : Platform → List Text → Digest
hash_seed_phrase pf ws = pf.sha256 (join_spaces (map (normal_word pf) ws))

-- `[w.strip().lower() for w in words if w and w.strip()]`
unfoldable pub clean_words : Platform → List Text → List Text
clean_words pf [] = []
clean_words pf (w ∷ ws) =
    let rest = clean_words pf ws in
    if is_nonempty (strip pf.is_space w) then normal_word pf w ∷ rest else rest

abbrev pub starts_with : Text → Text → Bool
starts_with [] s = true
starts_with (c ∷ p) [] = false
starts_with (c ∷ p) (d ∷ s) = c == d && starts_with p s

abbrev pub contains : Text → Text → Bool
contains p [] = starts_with p []
contains p (c ∷ s) = let rest = contains p s in starts_with p (c ∷ s) || rest

-- FORBIDDEN_SUBSTRINGS of backend/wallet_access/notifications.py
abbrev pub forbidden_substrings : List Text
forbidden_substrings =
    codes "seed_phrase"
    ∷ codes "seed phrase"
    ∷ codes "mnemonic"
    ∷ codes "private_key"
    ∷ codes "private key"
    ∷ codes "wallet_password"
    ∷ codes "wallet password"
    ∷ codes "encrypted_private_key"
    ∷ []

-- What `_safety_check` asks of a value in lower case before it raises ValueError.
unfoldable pub is_forbidden : Text → Bool
is_forbidden lowered = any (λ f. contains f lowered) forbidden_substrings
