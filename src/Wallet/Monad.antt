-- ===== src/Wallet/Monad.antt =====
-- A call of backend/wallet_access/services.py: it may raise one of the exceptions of that file, and
-- what it has written before stays written, unless the function is marked `@db_transaction.atomic`.
use irg_gdp.Base.{Bool, true, false, Option, none, some, [], ◌∷◌, ◌++◌}
use irg_gdp.Wallet.Model.{Account, Wallet, Recipient, NoticeKind, ChainCall, owner}

-- The exception classes; `key_error` and `value_error` are Python's own, for a
-- missing key of a dictionary and for a notice with a forbidden text.
pub data WalletError : Type 0 where
  access_error wallet_not_found already_activated invalid_seed_phrase invalid_password : WalletError
  password_policy nominee_policy wallet_locked not_transactable recovery_error : WalletError
  ownership_transfer_error key_error value_error : WalletError

pub data Result (A : Type 0) : Type 0 where
  ok : A → Result A
  err : WalletError → Result A

abbrev pub Action : Type 0 → Type 0
Action A = Account → Result A × Account

abbrev pub ⊤ : Type 0
⊤ = Unit

module _ {A : Type 0} where
  abbrev pub pure : A → Action A
  pure a s = (ok a, s)

  abbrev pub raise : WalletError → Action A
  raise e s = (err e, s)

  abbrev pub gets : (Account → A) → Action A
  gets f s = (ok (f s), s)

  abbrev pub or_raise : Option A → WalletError → Action A
  or_raise none e = raise e
  or_raise (some a) e = pure a

  -- `@db_transaction.atomic`: an exception that leaves the function rolls its writes back.
  abbrev pub atomic : Action A → Action A
  atomic m s = let (r, s') = m s in elim r [ ok a ↦ (ok a, s') | err e ↦ (err e, s) ]

infixl 5 ◌>>=◌ ◌>>◌
abbrev pub ◌>>=◌ : {A B : Type 0} → Action A → (A → Action B) → Action B
◌>>=◌ m f s = let (r, s') = m s in elim r [ ok a ↦ f a s' | err e ↦ (err e, s') ]

abbrev pub ◌>>◌ : {A B : Type 0} → Action A → Action B → Action B
m >> k = m >>= λ _. k

abbrev pub raise_if : Bool → WalletError → Action ⊤
raise_if true e s = (err e, s)
raise_if false e s = (ok tt, s)

abbrev pub modify : (Account → Account) → Action ⊤
modify f s = (ok tt, f s)

abbrev pub set_wallet : (Wallet → Wallet) → Account → Account
set_wallet f s = record s { wallet = f s.wallet }

abbrev pub send : Recipient → NoticeKind → Account → Account
send to kind s = record s { outbox = s.outbox ++ (record { to = to; kind = kind } ∷ []) }

-- `notify(user, kind, …)`
abbrev pub notify : NoticeKind → Account → Account
notify kind = send owner kind

abbrev pub emit : ChainCall → Account → Account
emit c s = record s { chain_calls = s.chain_calls ++ (c ∷ []) }
