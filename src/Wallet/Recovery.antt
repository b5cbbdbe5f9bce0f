-- ===== src/Wallet/Recovery.antt =====
-- Recovery of a wallet: by the seed phrase, by a nominee, by the Ombudsman; its cancellation, and the
-- execution of an Ombudsman order.
pub mod Self
pub mod Cancellation
pub mod Claims
pub mod Orders
use irg_gdp.Base.{
  ℕ, ◌+◌, ◌≡◌, Bool, true, false, ◌&&◌, ◌||◌, Option, none, some, List, [], ◌∷◌, ◌++◌, map, take,
  any, filter, find?, update_where, ltb, ◌==◌, is_some, is_nonempty, not, if◌then◌else◌,
}
use irg_gdp.Base.Text.{Text, text_eq, codes, strip}
use irg_gdp.Wallet.Model.{
  Account, Wallet, WalletState, recovering, suspended, recovered, Nominee, RecoveryCase,
  RecoveryPath, self, social, trustee, CaseStatus, notified, awaiting_ombudsman, approved, executed,
  rejected, cancelled, expired, Digest, Time, User, contact, unusual_activity, recovery_initiated,
  signature_requested, recovery_cancelled, recovery_rejected, recovery_executed,
  file_recovery_request, cancel_recovery_request,
}
use irg_gdp.Wallet.Monad.{
  Action, Result, ok, err, invalid_seed_phrase, not_transactable, recovery_error, ⊤, pure, raise,
  gets, or_raise, ◌>>=◌, ◌>>◌, raise_if, modify, set_wallet, notify, send, emit,
}
use irg_gdp.Wallet.Policy.{
  Platform, normal_word, hash_seed_phrase, social_recovery_cooling_off, trustee_public_notice,
  reversibility_window,
}
use irg_gdp.Wallet.Password.{restored_state}
use irg_gdp.Wallet.Nominees.{active_nominees}
use irg_gdp.Wallet.Devices.{DeviceInput, replace_device}

-- `RecoveryCase.objects.create` with the columns that every path gives; the others are empty.
unfoldable pub new_case : ℕ → RecoveryPath → CaseStatus → ℕ → ℕ → Text → RecoveryCase
new_case id path status claimant address grounds = record {
  id = id;
  path = path;
  status = status;
  claimant = claimant;
  claimant_wallet_address = address;
  grounds = grounds;
  evidence_bundle_hash = [];
  cooling_off_ends_at = none;
  public_notice_ends_at = none;
  recovery_requested_tx_hash = none;
  ombudsman_order_hash = none;
  ombudsman_order_tx_hash = none;
  execution_tx_hash = none;
  reversibility_ends_at = none;
}

abbrev pub add_case : RecoveryCase → Account → Account
add_case c s = record s { cases = s.cases ++ (c ∷ []) }

abbrev pub has_case_id : ℕ → RecoveryCase → Bool
has_case_id id c = c.id == id

-- `case.save(...)`
abbrev pub save_case : ℕ → (RecoveryCase → RecoveryCase) → Account → Account
save_case id f s = record s { cases = update_where (has_case_id id) f s.cases }

abbrev pub set_state : WalletState → Account → Account
set_state st = set_wallet (λ w. record w { state = st })

abbrev pub is_closed_wallet : WalletState → Bool
is_closed_wallet suspended = true
is_closed_wallet recovered = true
is_closed_wallet _ = false

abbrev pub matches_seed : Digest → Option Digest → Bool
matches_seed d none = false
matches_seed d (some h) = d == h

abbrev pub self_grounds : Text
self_grounds = codes "Self-recovery via seed phrase on new device."

unfoldable pub self_case : ℕ → Account → RecoveryCase
unfolding new_case
self_case id s = new_case id self approved s.user.id s.wallet.address self_grounds

-- The writes of `initiate_self_recovery`; the case goes from APPROVED to EXECUTED in the same call.
unfoldable pub self_recover : ℕ → ℕ → Time → DeviceInput → Account → Account
self_recover case_id device_id now d s =
    save_case case_id (λ c. record c { status = executed })
      (notify unusual_activity (replace_device device_id now d (add_case (self_case case_id s) s)))

unfoldable pub initiate_self_recovery :
    Platform → ℕ → ℕ → Time → List Text → DeviceInput → Action RecoveryCase
initiate_self_recovery pf case_id device_id now words d s =
    if is_closed_wallet s.wallet.state
    then (err not_transactable, s)
    else if not
        (matches_seed (hash_seed_phrase pf (map (normal_word pf) words)) s.wallet.seed_phrase_hash)
    then (err invalid_seed_phrase, s)
    else (
      ok (record (self_case case_id s) { status = executed }),
      self_recover case_id device_id now d s,
    )

-- The two queries by which a claimant counts as a nominee.
abbrev pub has_email : Text → Nominee → Bool
has_email e n = text_eq n.email e

abbrev pub has_mobile : Text → Nominee → Bool
has_mobile m n = text_eq n.mobile m

unfoldable pub is_claimant : User → Account → Bool
is_claimant u s =
    any (has_email u.email) (active_nominees s) || any (has_mobile u.mobile) (active_nominees s)

-- The other active nominees are asked for their signatures.
unfoldable pub ask_signatures : List Nominee → Account → Account
ask_signatures [] s = s
ask_signatures (n ∷ ns) s =
    ask_signatures ns (send (contact n.email n.mobile) signature_requested s)

unfoldable pub social_case : ℕ → Time → User → ℕ → Text → RecoveryCase
unfolding new_case
social_case id now u address grounds =
    record (new_case id social notified u.id address (take 2000 grounds)) {
      cooling_off_ends_at = some (now + social_recovery_cooling_off);
    }

-- `initiate_social_recovery`, on the account of the original wallet.
unfoldable pub initiate_social_recovery : ℕ → Time → User → ℕ → Text → Action RecoveryCase
initiate_social_recovery id now u address grounds = do
  st ← gets (λ s. s.wallet.state)
  raise_if (is_closed_wallet st) not_transactable
  known ← gets (is_claimant u)
  raise_if (not known) recovery_error
  modify (add_case (social_case id now u address grounds))
  modify (set_state recovering)
  modify (notify recovery_initiated)
  others ← gets (λ s. filter (λ n. not (has_email u.email n)) (active_nominees s))
  modify (ask_signatures others)
  pure (social_case id now u address grounds)

abbrev pub is_recovered : WalletState → Bool
is_recovered recovered = true
is_recovered _ = false

unfoldable pub trustee_case : ℕ → Time → User → ℕ → Text → Text → RecoveryCase
unfolding new_case
trustee_case id now u address grounds evidence =
    record (new_case id trustee awaiting_ombudsman u.id address (take 2000 grounds)) {
      evidence_bundle_hash = take 66 evidence;
      public_notice_ends_at = some (now + trustee_public_notice);
    }

-- `case.recovery_requested_tx_hash = tx_hash`, unless the call to the chain raised.
abbrev pub save_tx_hash : ℕ → Option Digest → Account → Account
save_tx_hash id none s = s
save_tx_hash id (some h) s = save_case id (λ c. record c { recovery_requested_tx_hash = some h }) s

-- `initiate_trustee_recovery`, on the account of the original wallet. `filed` is what the call of the
-- blockchain service returns, `none` if it raises.
unfoldable pub initiate_trustee_recovery :
    ℕ → Time → User → ℕ → Text → Text → Option Digest → Action RecoveryCase
initiate_trustee_recovery id now u address grounds evidence filed = do
  st ← gets (λ s. s.wallet.state)
  raise_if (is_recovered st) not_transactable
  modify (add_case (trustee_case id now u address grounds evidence))
  modify (set_state recovering)
  modify (emit (file_recovery_request id))
  modify (save_tx_hash id filed)
  modify (notify recovery_initiated)
  pure (record (trustee_case id now u address grounds evidence) {
    recovery_requested_tx_hash = filed;
  })

abbrev pub is_final : CaseStatus → Bool
is_final executed = true
is_final cancelled = true
is_final rejected = true
is_final expired = true
is_final _ = false

abbrev pub is_past : Option Time → Time → Bool
is_past none now = false
is_past (some t) now = ltb t now

abbrev pub is_social : RecoveryPath → Bool
is_social social = true
is_social _ = false

-- `wallet.state = 'ACTIVATED' if wallet.password_hash else 'CREATED'`
abbrev pub restore : Account → Account
restore = set_wallet (λ w. record w { state = restored_state w })

-- `(grounds + f'\n\nCancelled by owner: {reason[:500]}').strip()`
unfoldable pub with_note : Platform → Text → Text → Text
with_note pf grounds reason =
    strip pf.is_space (grounds ++ (10 ∷ 10 ∷ (codes "Cancelled by owner: " ++ take 500 reason)))

unfoldable pub cancel_case : Platform → Text → RecoveryCase → RecoveryCase
cancel_case pf reason c = record c { status = cancelled; grounds = with_note pf c.grounds reason }

unfoldable pub cancel_recovery : Platform → Time → ℕ → Text → Action RecoveryCase
cancel_recovery pf now id reason = do
  c ← (λ s. or_raise (find? (has_case_id id) s.cases) recovery_error s)
  raise_if (is_final c.status) recovery_error
  raise_if (is_social c.path && is_past c.cooling_off_ends_at now) recovery_error
  modify (save_case id (cancel_case pf reason))
  modify restore
  modify (emit (cancel_recovery_request id))
  modify (notify recovery_cancelled)
  pure (cancel_case pf reason c)

-- The dispositions of an Ombudsman order; `other_disposition` is a remand, an escalation to a court,
-- or any other text.
pub data Disposition : Type 0 where
  reject approve approve_modified other_disposition : Disposition

abbrev pub note_order : Digest → Digest → RecoveryCase → RecoveryCase
note_order h tx c = record c { ombudsman_order_hash = some h; ombudsman_order_tx_hash = some tx }

unfoldable pub reject_case : Digest → Digest → RecoveryCase → RecoveryCase
reject_case h tx c = record (note_order h tx c) { status = rejected }

-- APPROVED first, and EXECUTED before the call returns.
unfoldable pub execute_case : Time → Digest → Digest → RecoveryCase → RecoveryCase
execute_case now h tx c = record (note_order h tx c) {
  status = executed;
  execution_tx_hash = some tx;
  reversibility_ends_at = some (now + reversibility_window);
}

unfoldable pub apply_order : Time → ℕ → Digest → Digest → Disposition → Account → Account
apply_order now id h tx reject s =
    notify recovery_rejected (restore (save_case id (reject_case h tx) s))
apply_order now id h tx approve s =
    notify recovery_executed (set_state recovered (save_case id (execute_case now h tx) s))
apply_order now id h tx approve_modified s =
    notify recovery_executed (set_state recovered (save_case id (execute_case now h tx) s))
apply_order now id h tx other_disposition s = save_case id (note_order h tx) s

-- `execute_ombudsman_order`, on the account that the case belongs to. The status of the case is not
-- looked at.
unfoldable pub execute_ombudsman_order : Time → ℕ → Digest → Digest → Disposition → Action ⊤
execute_ombudsman_order now id h tx d = do
  c ← (λ s. or_raise (find? (has_case_id id) s.cases) recovery_error s)
  modify (apply_order now id h tx d)
