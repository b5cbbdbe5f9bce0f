-- ===== src/Wallet/Nominees.antt =====
-- The nominees of a wallet: the sums of their shares and `update_nominees`.
pub mod Replacement
use irg_gdp.Base.{
  ℕ, ◌+◌, ◌≡◌, Bool, true, false, ◌&&◌, ◌||◌, Option, none, some, List, [], ◌∷◌, ◌++◌, filter,
  update_where, is_nonempty, not, if◌then◌else◌,
}
use irg_gdp.Base.Int.{ℤ, pos, ◌+ℤ◌, leb_ℤ, eqb_ℤ}
use irg_gdp.Base.Text.{Text}
use irg_gdp.Base.{take}
use irg_gdp.Wallet.Model.{Account, Nominee, WalletState, created, activated, Time, unusual_activity}
use irg_gdp.Wallet.Monad.{
  Action, Result, ok, err, key_error, nominee_policy, not_transactable, ⊤, pure, raise, gets,
  or_raise, atomic, ◌>>=◌, ◌>>◌, raise_if, modify, notify,
}
use irg_gdp.Wallet.Policy.{Platform}
use irg_gdp.Wallet.Password.{require_password}

-- A dictionary of the request. A text that is missing is the empty text; the share is
-- `Decimal(str(...))` in units of 10^-12 percent, `none` if the key is missing.
pub record NomineeInput : Type 0 where
  pub name : Text
  pub relationship : Text
  pub email : Text
  pub mobile : Text
  pub id_document_hash : Text
  pub share_percent : Option ℤ
  pub social_recovery_threshold : Option ℕ

-- 100 %.
abbrev pub full_share : ℤ
full_share = pos 100000000000000

-- `n.get('share_percent', 0)`
abbrev pub share_or_zero : NomineeInput → ℤ
share_or_zero n = elim n.share_percent [ none ↦ pos 0 | some v ↦ v ]

unfoldable pub total_or_zero : List NomineeInput → ℤ
total_or_zero [] = pos 0
total_or_zero (n ∷ ns) = share_or_zero n +ℤ total_or_zero ns

abbrev pub all_given : List NomineeInput → Bool
all_given [] = true
all_given (n ∷ ns) = elim n.share_percent [ none ↦ false | some v ↦ all_given ns ]

-- `sum(Decimal(str(n['share_percent'])) for n in nominees)`; `none` is the KeyError.
unfoldable pub given_total : List NomineeInput → Option ℤ
unfolding total_or_zero
given_total ns = if all_given ns then some (total_or_zero ns) else none

abbrev pub all_positive : List NomineeInput → Bool
all_positive [] = true
all_positive (n ∷ ns) = not (leb_ℤ (share_or_zero n) (pos 0)) && all_positive ns

-- `sum(n.share_percent for n in nominees)` over rows.
unfoldable pub share_total : List Nominee → ℤ
share_total [] = pos 0
share_total (n ∷ ns) = n.share_percent +ℤ share_total ns

abbrev pub is_active_nominee : Nominee → Bool
is_active_nominee n = n.active

-- `wallet.nominees.filter(active=True)`
abbrev pub active_nominees : Account → List Nominee
active_nominees s = filter is_active_nominee s.nominees

abbrev pub two_or : Option ℕ → ℕ
two_or none = 2
two_or (some n) = n

-- The last place of the column `share_percent`, a thousandth of a percent.
abbrev pub share_place : ℕ
share_place = 1000000000

-- The row that `NomineeRegistration.objects.create` writes.
unfoldable pub new_nominee : Platform → NomineeInput → ℤ → Nominee
new_nominee pf n share = record {
  name = take 200 n.name;
  relationship = take 60 n.relationship;
  email = take 254 n.email;
  mobile = take 20 n.mobile;
  id_document_hash = take 66 n.id_document_hash;
  share_percent = pf.to_column share_place share;
  social_recovery_threshold = two_or n.social_recovery_threshold;
  active = true;
  revoked_at = none;
}

unfoldable pub new_nominees : Platform → List NomineeInput → List Nominee
unfolding new_nominee
new_nominees pf [] = []
new_nominees pf (n ∷ ns) = new_nominee pf n (share_or_zero n) ∷ new_nominees pf ns

-- The loop that creates the rows. `n['share_percent']` raises if it is missing; the rows before it
-- have been written then, and the transaction around the loop takes them back.
unfoldable pub register_nominees : Platform → List NomineeInput → Action ⊤
unfolding new_nominees
register_nominees pf ns s =
    if all_given ns
    then (ok tt, record s { nominees = s.nominees ++ new_nominees pf ns })
    else (err key_error, s)

unfoldable pub retire_nominee : Time → Nominee → Nominee
retire_nominee now n = record n { active = false; revoked_at = some now }

unfoldable pub retire_nominees : Time → Account → Account
unfolding retire_nominee
retire_nominees now s = record s {
  nominees = update_where is_active_nominee (retire_nominee now) s.nominees;
}

-- Who may update: an activated wallet with its password, a created one without.
unfoldable pub may_update : Platform → Time → Text → WalletState → Action ⊤
may_update pf now p activated = require_password pf now p
may_update pf now p created = pure tt
may_update pf now p _ = raise not_transactable

unfoldable pub update_nominees : Platform → Time → List NomineeInput → Text → Action ⊤
update_nominees pf now ns p = atomic (do
  st ← gets (λ s. s.wallet.state)
  may_update pf now p st
  raise_if (not (is_nonempty ns)) nominee_policy
  total ← or_raise (given_total ns) key_error
  raise_if (not (eqb_ℤ total full_share)) nominee_policy
  modify (retire_nominees now)
  register_nominees pf ns
  modify (notify unusual_activity))
