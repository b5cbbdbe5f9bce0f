-- ===== src/Gdp/Minting/Grams.antt =====
-- The grams that a user has minted, when a record is saved.
use irg_gdp.Base.{
  ℕ, ◌+◌, ◌≤◌, ◌≡◌, some, List, arith, find?, sum, if◌then◌else◌, sum-save_row, only-some,
  find?-true, sum-filter,
}
use irg_gdp.Gdp.Model.{MintingRecord, Gdp}
use irg_gdp.Gdp.Minting.{
  Checklist, is_completed_of, pure_gold, user_minted_grams, has_record_id, is_user_of, get_record,
  save_record, check,
}

-- What a record adds to the grams that its user has minted.
abbrev pub counted : ℕ → MintingRecord → ℕ
counted user r = if is_completed_of user r then r.pure_gold_equivalent else 0

minted_is_sum :
    (user : ℕ) (rs : List MintingRecord) → user_minted_grams user rs ≡ sum (counted user) rs
unfolding user_minted_grams
minted_is_sum user rs = sum-filter pure_gold (is_completed_of user) rs

-- Saving a record exchanges what it adds.
pub minted-save :
    (user : ℕ) (r t : MintingRecord) (s : Gdp)
    → find? (has_record_id r.id) s.records ≡ some t
    → user_minted_grams user (save_record r s).records + counted user t
      ≡ user_minted_grams user s.records + counted user r
minted-save user r t s h =
    rw (minted_is_sum user (save_record r s).records, minted_is_sum user s.records)
      (sum-save_row (counted user) (has_record_id r.id) r t s.records h)

-- A record that is saved and does not count leaves no more grams than before.
pub minted-save_open :
    (user : ℕ) (r t : MintingRecord) (s : Gdp)
    → find? (has_record_id r.id) s.records ≡ some t
    → counted user r ≡ 0
    → user_minted_grams user (save_record r s).records ≤ user_minted_grams user s.records
minted-save_open user r t s h e = omega (arith, minted-save user r t s h)

pub found_at :
    (k id : ℕ) (s : Gdp) (r : MintingRecord)
    → k ≡ id
    → find? (has_record_id id) s.records ≡ some r
    → find? (has_record_id k) s.records ≡ some r
found_at k id s r e h = rw e h

pub get_record-found :
    (user id : ℕ) (s : Gdp) (r : MintingRecord)
    → get_record user id s ≡ some r
    → find? (has_record_id r.id) s.records ≡ some r
unfolding get_record
get_record-found user id s r h =
    let (f, e) = only-some (is_user_of user) (find? (has_record_id id) s.records) r h in
    let k : r.id ≡ id = ground (arith, find?-true (has_record_id id) s.records r f) in
    found_at r.id id s r k f

pub get_record-user :
    (user id : ℕ) (s : Gdp) (r : MintingRecord) → get_record user id s ≡ some r → r.user ≡ user
unfolding get_record
get_record-user user id s r h =
    ground (arith, only-some (is_user_of user) (find? (has_record_id id) s.records) r h)

pub check-open : (c : Checklist) (r : MintingRecord) (user : ℕ) → counted user (check c r) ≡ 0
unfolding check
check-open c r user = ground arith
