-- ===== src/Wallet/Nominees/Replacement.antt =====
-- What `update_nominees` leaves behind, and whom it lets through.
use irg_gdp.Base.{
  ℕ, suc, ◌+◌, ◌≡◌, refl, ◌⊎◌, true, false, some, List, [], ◌∷◌, ◌++◌, arith, length, filter,
  update_where, none, take, sym, all, ap, ◌∙◌, filter-append, filter-update_where_none, filter-all,
}
use irg_gdp.Base.Int.{pos, negsuc, ◌+ℤ◌, int_laws, eq_of_parts}
use irg_gdp.Base.Text.{Text}
use irg_gdp.Wallet.Model.{Account, Nominee, created, activated, Time}
use irg_gdp.Wallet.Monad.{ok}
use irg_gdp.Wallet.Policy.{Platform}
use irg_gdp.Wallet.Password.{require_password, verify_wallet_password}
use irg_gdp.Wallet.Nominees.{
  NomineeInput, share_place, share_or_zero, full_share, total_or_zero, given_total, share_total,
  is_active_nominee, active_nominees, new_nominees, register_nominees, retire_nominee,
  retire_nominees, may_update, update_nominees,
}

pub length-new_nominees :
    (pf : Platform) (ns : List NomineeInput) → length (new_nominees pf ns) ≡ length ns
unfolding new_nominees
length-new_nominees pf [] = refl
length-new_nominees pf (n ∷ ns) = ap suc (length-new_nominees pf ns)

-- The column of the shares keeps each of them as it is.
abbrev pub AreKept : Platform → List NomineeInput → Type 0
AreKept pf [] = Unit
AreKept pf (n ∷ ns) = (pf.to_column share_place (share_or_zero n) ≡ share_or_zero n) × AreKept pf ns

-- The rows are those of the inputs, in order: active, with the input's name, email and mobile number
-- cut to their columns, and the share that the column keeps.
abbrev pub AreRowsOf : Platform → List NomineeInput → List Nominee → Type 0
AreRowsOf pf [] [] = Unit
AreRowsOf pf (n ∷ ns) (r ∷ rs) =
    (r.active ≡ true)
    × (r.revoked_at ≡ none)
    × (r.name ≡ take 200 n.name)
    × (r.email ≡ take 254 n.email)
    × (r.mobile ≡ take 20 n.mobile)
    × (r.share_percent ≡ pf.to_column share_place (share_or_zero n))
    × AreRowsOf pf ns rs
AreRowsOf pf _ _ = true ≡ false

pub new_nominees-AreRowsOf :
    (pf : Platform) (ns : List NomineeInput) → AreRowsOf pf ns (new_nominees pf ns)
unfolding new_nominees
new_nominees-AreRowsOf pf [] = tt
new_nominees-AreRowsOf pf (n ∷ ns) =
    (refl, refl, refl, refl, refl, refl, new_nominees-AreRowsOf pf ns)

pub share_total-new_nominees :
    (pf : Platform) (ns : List NomineeInput)
    → AreKept pf ns
    → share_total (new_nominees pf ns) ≡ total_or_zero ns
unfolding new_nominees share_total total_or_zero
share_total-new_nominees pf [] k = refl
share_total-new_nominees pf (n ∷ ns) (e, k) = rw (e, share_total-new_nominees pf ns k) refl

new_nominees_active :
    (pf : Platform) (ns : List NomineeInput) → all is_active_nominee (new_nominees pf ns) ≡ true
unfolding new_nominees
new_nominees_active pf [] = refl
new_nominees_active pf (n ∷ ns) = new_nominees_active pf ns

pub filter-new_nominees :
    (pf : Platform) (ns : List NomineeInput)
    → filter is_active_nominee (new_nominees pf ns) ≡ new_nominees pf ns
filter-new_nominees pf ns =
    filter-all is_active_nominee (new_nominees pf ns) (new_nominees_active pf ns)

-- Of the nominees after a replacement the active ones are the new ones.
replaced_active :
    (pf : Platform) (now : Time) (ns : List NomineeInput) (old : List Nominee)
    → filter is_active_nominee
        (update_where is_active_nominee (retire_nominee now) old ++ new_nominees pf ns)
      ≡ new_nominees pf ns
unfolding retire_nominee
replaced_active pf now ns old =
    rw
      (
        filter-append is_active_nominee (update_where is_active_nominee (retire_nominee now) old)
            (new_nominees pf ns),
        filter-update_where_none is_active_nominee (retire_nominee now) (λ n. refl) old,
      )
      (filter-new_nominees pf ns)

pub share_total-append :
    (xs ys : List Nominee) → share_total (xs ++ ys) ≡ share_total xs +ℤ share_total ys
unfolding share_total
share_total-append [] ys = omega int_laws
share_total-append (x ∷ xs) ys = rw (share_total-append xs ys) (omega int_laws)

may_update_keeps :
    (pf : Platform) (now : Time) (p : Text) (s : Account)
    → (may_update pf now p s.wallet.state s).0 ≡ ok tt
    → ((s.wallet.state ≡ activated) ⊎ (s.wallet.state ≡ created))
      × ((may_update pf now p s.wallet.state s).1.nominees ≡ s.nominees)
unfolding may_update require_password verify_wallet_password
may_update_keeps pf now p s h = ground arith

written :
    (pf : Platform) (now : Time) (ns : List NomineeInput) (p : Text) (s : Account)
    → (update_nominees pf now ns p s).0 ≡ ok tt
    → ((may_update pf now p s.wallet.state s).0 ≡ ok tt)
      × (total_or_zero ns ≡ full_share)
      × ((update_nominees pf now ns p s).1.nominees
          ≡ update_where is_active_nominee
              (retire_nominee now)
              (may_update pf now p s.wallet.state s).1.nominees
            ++ new_nominees pf ns)
unfolding update_nominees given_total register_nominees retire_nominees
written pf now ns p s h = ground (arith, eq_of_parts (total_or_zero ns) full_share)

replaced :
    (pf : Platform) (now : Time) (ns : List NomineeInput) (p : Text) (s : Account)
    → (update_nominees pf now ns p s).0 ≡ ok tt
    → let t = (update_nominees pf now ns p s).1 in
      ((s.wallet.state ≡ activated) ⊎ (s.wallet.state ≡ created))
      × (t.nominees
          ≡ update_where is_active_nominee (retire_nominee now) s.nominees ++ new_nominees pf ns)
      × (active_nominees t ≡ new_nominees pf ns)
      × (total_or_zero ns ≡ full_share)
replaced pf now ns p s h =
    let (let_in, total, rows) = written pf now ns p s h in
    let (who, kept) = may_update_keeps pf now p s let_in in
    let same : (update_nominees pf now ns p s).1.nominees
        ≡ update_where is_active_nominee (retire_nominee now) s.nominees ++ new_nominees pf ns =
      rows
      ∙ ap (λ xs. update_where is_active_nominee (retire_nominee now) xs ++ new_nominees pf ns)
          kept in
    let actives : active_nominees (update_nominees pf now ns p s).1 ≡ new_nominees pf ns =
      ap (filter is_active_nominee) same ∙ replaced_active pf now ns s.nominees in
    (who, same, actives, total)

-- Let the column of the shares, which has three places, keep each given share as it is. An update that
-- returns was asked of an activated or a created wallet; the rows that were there stay, each active
-- one retired, and the active nominees are the rows of the given ones, whose shares make 100 %.
pub update_nominees_ok :
    (pf : Platform) (now : Time) (ns : List NomineeInput) (p : Text) (s : Account)
    → AreKept pf ns
    → (update_nominees pf now ns p s).0 ≡ ok tt
    → let t = (update_nominees pf now ns p s).1 in
      ((s.wallet.state ≡ activated) ⊎ (s.wallet.state ≡ created))
      × (t.nominees
          ≡ update_where is_active_nominee (retire_nominee now) s.nominees ++ active_nominees t)
      × AreRowsOf pf ns (active_nominees t)
      × (share_total (active_nominees t) ≡ full_share)
update_nominees_ok pf now ns p s kept h =
    let (who, same, actives, total) = replaced pf now ns p s h in
    (
      who,
      same
          ∙ ap (λ xs. update_where is_active_nominee (retire_nominee now) s.nominees ++ xs)
              (sym actives),
      rw actives (new_nominees-AreRowsOf pf ns),
      rw actives (share_total-new_nominees pf ns kept ∙ total),
    )

-- On a created wallet an update with two nominees, one with more than 100 % and one with what is
-- then missing below zero, is accepted, whatever the password.
pub negative_share_accepted :
    (pf : Platform) (now : Time) (a b : NomineeInput) (v : ℕ) (p : Text) (s : Account)
    → s.wallet.state ≡ created
    → a.share_percent ≡ some (pos (100000000000001 + v))
    → b.share_percent ≡ some (negsuc v)
    → (update_nominees pf now (a ∷ b ∷ []) p s).0 ≡ ok tt
unfolding update_nominees may_update given_total register_nominees total_or_zero ◌+ℤ◌
negative_share_accepted pf now a b v p s st ea eb = ground arith
