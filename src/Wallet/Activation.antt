-- ===== src/Wallet/Activation.antt =====
-- `activate_wallet` and what it returns, `get_wallet_info`.
pub mod Outcome
pub mod Passage
use irg_gdp.Base.{
  ℕ, ◌≡◌, Bool, true, false, ◌&&◌, Option, none, some, List, [], ◌∷◌, ◌++◌, map, length, take,
  filter, ltb, ◌==◌, is_some, is_nonempty, not, if◌then◌else◌,
}
use irg_gdp.Base.Int.{ℤ, pos, eqb_ℤ}
use irg_gdp.Base.Text.{Text}
use irg_gdp.Wallet.Model.{
  Account, Wallet, WalletState, activated, suspended, recovered, HolderType, individual,
  legal_person, EntityType, blank, Device, active, Digest, Time, Nominee, contact, wallet_activated,
  nominee_registered, BlockingReason, blocking_reason, is_transactable, is_active_device,
}
use irg_gdp.Wallet.Monad.{
  Action, Result, ok, err, WalletError, access_error, already_activated, invalid_seed_phrase,
  nominee_policy, password_policy, ⊤, pure, raise, gets, atomic, ◌>>=◌, ◌>>◌, raise_if, modify,
  set_wallet, notify, send,
}
use irg_gdp.Wallet.Policy.{
  Platform, validate_wallet_password, clean_words, hash_seed_phrase, seed_phrase_word_count,
}
use irg_gdp.Wallet.Nominees.{
  NomineeInput, all_positive, total_or_zero, full_share, register_nominees, active_nominees,
  share_total,
}

-- The arguments of the call. An enumeration is `none` if the text is none of its choices.
pub record Activation : Type 0 where
  pub wallet_password : Text
  pub seed_phrase_words : List Text
  pub holder_type : Option HolderType
  pub nominees : List NomineeInput
  pub device_id_hash : Text
  pub device_label : Text
  pub platform : Text
  pub terms_accepted : Bool
  pub legal_entity_name : Text
  pub entity_type : Option EntityType

-- `WalletInfo`, without what only repeats a column of the wallet.
pub record WalletInfo : Type 0 where
  pub state : WalletState
  pub blocking_reason : BlockingReason
  pub nominee_count : ℕ
  pub nominee_shares_total : ℤ
  pub active_device_count : ℕ
  pub failed_password_attempts : ℕ
  pub is_transactable : Bool

unfoldable pub get_wallet_info : Time → Account → WalletInfo
unfolding share_total
get_wallet_info now s = record {
  state = s.wallet.state;
  blocking_reason = blocking_reason s.wallet.state;
  nominee_count = length (active_nominees s);
  nominee_shares_total = share_total (active_nominees s);
  active_device_count = length (filter is_active_device s.devices);
  failed_password_attempts = s.wallet.failed_password_attempts;
  is_transactable = is_transactable s.wallet now;
}

-- The first checks of the state of the wallet.
unfoldable pub may_activate : WalletState → Action ⊤
may_activate activated = raise already_activated
may_activate suspended = raise access_error
may_activate recovered = raise access_error
may_activate _ = pure tt

-- Step 3. A legal person needs a name; its kind may be blank.
unfoldable pub check_holder : Option HolderType → Text → Option EntityType → Action ⊤
check_holder none name entity = raise access_error
check_holder (some individual) name entity = pure tt
check_holder (some legal_person) [] entity = raise access_error
check_holder (some legal_person) (c ∷ name) none = raise access_error
check_holder (some legal_person) (c ∷ name) (some e) = pure tt

-- Step 4. An individual needs two nominees or more, each with a positive share.
unfoldable pub check_activation_nominees : Option HolderType → List NomineeInput → Action ⊤
check_activation_nominees (some individual) ns = do
  raise_if (ltb (length ns) 2) nominee_policy
  raise_if (not (all_positive ns)) nominee_policy
  raise_if (not (eqb_ℤ (total_or_zero ns) full_share)) nominee_policy
check_activation_nominees _ ns =
    raise_if (is_nonempty ns && not (eqb_ℤ (total_or_zero ns) full_share)) nominee_policy

-- All that is checked before the first write.
unfoldable pub check_activation : Platform → Activation → Action ⊤
check_activation pf a = do
  raise_if (not a.terms_accepted) access_error
  st ← gets (λ s. s.wallet.state)
  may_activate st
  login ← gets (λ s. s.user.login_password_hash)
  raise_if (is_some (validate_wallet_password pf a.wallet_password login)) password_policy
  raise_if (not (length (clean_words pf a.seed_phrase_words) == seed_phrase_word_count))
      invalid_seed_phrase
  check_holder a.holder_type a.legal_entity_name a.entity_type
  check_activation_nominees a.holder_type a.nominees

abbrev pub is_legal : Option HolderType → Bool
is_legal (some legal_person) = true
is_legal _ = false

abbrev pub holder_or : HolderType → Option HolderType → HolderType
holder_or h none = h
holder_or h (some g) = g

abbrev pub entity_or_blank : Option EntityType → EntityType
entity_or_blank none = blank
entity_or_blank (some e) = e

-- Step 5; `id` is the primary key that the database gives the row.
unfoldable pub activation_device : ℕ → Time → Activation → Device
activation_device id now a = record {
  id = id;
  device_id_hash = a.device_id_hash;
  device_label = take 100 a.device_label;
  platform = take 20 a.platform;
  state = active;
  cooling_off_until = none;
  activated_at = some now;
  retired_at = none;
}

-- Step 7.
unfoldable pub activated_wallet : Platform → Time → Digest → Activation → Wallet → Wallet
activated_wallet pf now salt a w = record w {
  password_hash = some (pf.make_password a.wallet_password salt);
  password_salt = salt;
  seed_phrase_hash = some (hash_seed_phrase pf (clean_words pf a.seed_phrase_words));
  seed_phrase_confirmed = true;
  seed_phrase_confirmed_at = some now;
  holder_type = holder_or w.holder_type a.holder_type;
  legal_entity_name = if is_legal a.holder_type then take 200 a.legal_entity_name else [];
  entity_type = if is_legal a.holder_type then entity_or_blank a.entity_type else blank;
  state = activated;
  activated_at = some now;
  last_activity_at = some now;
  failed_password_attempts = 0;
  locked_until = none;
}

-- Step 8: every active nominee is told, those of before too.
unfoldable pub tell_nominees : List Nominee → Account → Account
tell_nominees [] s = s
tell_nominees (n ∷ ns) s = tell_nominees ns (send (contact n.email n.mobile) nominee_registered s)

unfoldable pub activate_wallet : Platform → ℕ → Time → Digest → Activation → Action WalletInfo
activate_wallet pf id now salt a = atomic (do
  check_activation pf a
  modify (λ s. record s { devices = s.devices ++ (activation_device id now a ∷ []) })
  register_nominees pf a.nominees
  modify (set_wallet (activated_wallet pf now salt a))
  modify (notify wallet_activated)
  ns ← gets active_nominees
  modify (tell_nominees ns)
  gets (get_wallet_info now))
