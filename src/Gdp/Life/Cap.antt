-- ===== src/Gdp/Life/Cap.antt =====
-- The cap of 500 g through every life of the tables.
use irg_gdp.Base.{
  ℕ, ◌≤◌, ◌≡◌, refl, Bool, false, Option, none, some, List, arith, find?, save_row, Option-cases,
  inl, inr, ==_refl, save_row-twice,
}
use irg_gdp.Gdp.Model.{
  User, TxHash, MintingRecord, TransferType, Gdp, Arithmetic, minting, over_cap, call_failed,
}
use irg_gdp.Gdp.Minting.{
  Role, MintRequest, Checklist, minting_cap_grams, user_minted_grams, exceeds_cap, has_record_id,
  get_record, reject, complete, check, mint_verified, create, perform_create, verify_checklist,
  execute_mint, calculate_units,
}
use irg_gdp.Gdp.Minting.Grams.{minted-save, minted-save_open, get_record-found, check-open}
use irg_gdp.Gdp.Swaps.{initiate, confirm, settle_swap}
use irg_gdp.Gdp.Trading.{TradeRequest, place_order}
use irg_gdp.Gdp.Transfers.{
  transfer, create_earmark, earmark_found, release, settle_release, reactivate,
}
use irg_gdp.Gdp.Life.{
  Step, ask, verify, mint, start_swap, confirm_swap, place, give, earmark, release_earmark, Reach,
  here, next,
}

abbrev pub IsWithinCap : ℕ → Gdp → Type 0
IsWithinCap user s = user_minted_grams user s.records ≤ minting_cap_grams

create-IsWithinCap :
    (ar : Arithmetic) (inserted : Bool) (id : ℕ) (u : User) (roles : List Role) (rate : Option ℕ)
    (q : MintRequest) (user : ℕ) (s : Gdp)
    → IsWithinCap user s
    → IsWithinCap user (create ar inserted id u roles rate q s).1
unfolding create perform_create user_minted_grams calculate_units
create-IsWithinCap ar inserted id u roles rate q user s h = ground arith

verify-IsWithinCap :
    (u : User) (id : ℕ) (known : Bool) (c : Checklist) (user : ℕ) (s : Gdp)
    → IsWithinCap user s
    → IsWithinCap user (verify_checklist u id known c s).1
unfolding verify_checklist
verify-IsWithinCap u id known c user s h = elim (Option-cases (get_record u.id id s)) [
  | inl f ↦ rw (verify_checklist, f) h
  | inr (r, f) ↦
      let m =
        minted-save_open user (check c r) r s (get_record-found u.id id s r f)
          (check-open c r user) in
      ground (arith, m)
]

saved_twice :
    (r y : MintingRecord) (rs : List MintingRecord)
    → save_row
        (has_record_id r.id)
        y
        (save_row (has_record_id r.id) (record r { status = minting }) rs)
      ≡ save_row (has_record_id r.id) y rs
saved_twice r y rs =
    save_row-twice (has_record_id r.id) (record r { status = minting }) y rs (==_refl r.id)

mint_verified-IsWithinCap :
    (ar : Arithmetic) (id now : ℕ) (rate : Option ℕ) (tx : Option TxHash) (r : MintingRecord)
    (user : ℕ) (s : Gdp)
    → find? (has_record_id r.id) s.records ≡ some r
    → exceeds_cap r.user r s ≡ false
    → IsWithinCap user s
    → IsWithinCap user (mint_verified ar id now rate tx r s).1
unfolding mint_verified exceeds_cap
mint_verified-IsWithinCap ar id now rate none r user s f e h =
    let m = minted-save_open user (reject call_failed r) r s f (ground arith) in
    rw (saved_twice r (reject call_failed r) s.records) (omega (arith, m))
mint_verified-IsWithinCap ar id now rate (some x) r user s f e h =
    let m = minted-save user (complete now x r) r s f in
    rw (saved_twice r (complete now x r) s.records) (ground (arith, m))

execute-IsWithinCap :
    (ar : Arithmetic) (u : User) (id unit now : ℕ) (rate : Option ℕ) (tx : Option TxHash) (user : ℕ)
    (s : Gdp)
    → IsWithinCap user s
    → IsWithinCap user (execute_mint ar u id unit now rate tx s).1
unfolding execute_mint
execute-IsWithinCap ar u id unit now rate tx user s h = elim (Option-cases (get_record u.id id s)) [
  | inl f ↦ rw (execute_mint, f) h
  | inr (r, f) ↦
      let g = get_record-found u.id id s r f in
      let m = minted-save_open user (reject over_cap r) r s g (ground arith) in
      let v = mint_verified-IsWithinCap ar unit now rate tx r user s g in
      rw (execute_mint, f) (ground (arith, m, v))
]

initiate-records :
    (id now user : ℕ) (ids : List ℕ) (category : ℕ) (b : Option ℕ) (s : Gdp)
    → (initiate id now user ids category b s).1.records ≡ s.records
unfolding initiate
initiate-records id now user ids category b s = ground arith

confirm-records :
    (user id now : ℕ) (tx : Option TxHash) (s : Gdp)
    → (confirm user id now tx s).1.records ≡ s.records
unfolding confirm settle_swap
confirm-records user id now none s = ground arith
confirm-records user id now (some h) s = ground arith

transfer-records :
    (id copy user now unit : ℕ) (to : Option ℕ) (k : TransferType) (tx : Option TxHash) (s : Gdp)
    → (transfer id copy user now unit to k tx s).1.records ≡ s.records
unfolding transfer
transfer-records id copy user now unit to k tx s = ground arith

earmark-records :
    (ar : Arithmetic) (id user : ℕ) (unit date rate : Option ℕ) (tx : Option TxHash) (s : Gdp)
    → (create_earmark ar id user unit date rate tx s).1.records ≡ s.records
unfolding create_earmark earmark_found
earmark-records ar id user none date rate tx s = refl
earmark-records ar id user (some u) none rate tx s = refl
earmark-records ar id user (some u) (some d) rate tx s = ground arith

release-records :
    (user id now : ℕ) (tx : Option TxHash) (s : Gdp)
    → (release user id now tx s).1.records ≡ s.records
unfolding release settle_release reactivate
release-records user id now tx s = ground arith

place-records :
    (id user now : ℕ) (tx : Option TxHash) (q : TradeRequest) (s : Gdp)
    → (place_order id user now tx q s).1.records ≡ s.records
unfolding place_order
place-records id user now tx q s = ground arith

step-IsWithinCap :
    (ar : Arithmetic) (user : ℕ) (s t : Gdp) → Step ar s t → IsWithinCap user s → IsWithinCap user t
step-IsWithinCap ar user s t (ask i id u roles rate q) h =
    create-IsWithinCap ar i id u roles rate q user s h
step-IsWithinCap ar user s t (verify u id known c) h = verify-IsWithinCap u id known c user s h
step-IsWithinCap ar user s t (mint u id unit now rate tx) h =
    execute-IsWithinCap ar u id unit now rate tx user s h
step-IsWithinCap ar user s t (start_swap id now u ids category b) h =
    rw (initiate-records id now u ids category b s) h
step-IsWithinCap ar user s t (confirm_swap u id now tx) h = rw (confirm-records u id now tx s) h
step-IsWithinCap ar user s t (place id u now tx q fresh) h = rw (place-records id u now tx q s) h
step-IsWithinCap ar user s t (give id copy u now unit to k tx) h =
    rw (transfer-records id copy u now unit to k tx s) h
step-IsWithinCap ar user s t (earmark id u unit date rate tx) h =
    rw (earmark-records ar id u unit date rate tx s) h
step-IsWithinCap ar user s t (release_earmark u id now tx) h = rw (release-records u id now tx s) h

-- If the completed records of a user make at most 500 g of pure gold, they still do after any
-- sequence of the calls of the views that write; the actions of the administrator and the generic
-- PUT, PATCH and DELETE of the view sets are not among these calls.
pub minted-IsWithinCap :
    (ar : Arithmetic) (user : ℕ) (s t : Gdp)
    → Reach ar s t
    → IsWithinCap user s
    → IsWithinCap user t
minted-IsWithinCap ar user s t here h = h
minted-IsWithinCap ar user s t (next {t = m} r st) h =
    step-IsWithinCap ar user m t st (minted-IsWithinCap ar user s m r h)
