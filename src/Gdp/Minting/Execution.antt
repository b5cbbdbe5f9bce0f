-- ===== src/Gdp/Minting/Execution.antt =====
-- When a record is minted, and what a record that was minted before allows.
use irg_gdp.Base.{
  ℕ, ◌+◌, ◌≤◌, ◌≡◌, ◌↔◌, refl, true, false, Option, none, some, List, ◌∷◌, arith, Option-cases, inl,
  inr, only-some, find?,
}
use irg_gdp.Gdp.Model.{
  User, TxHash, GdpUnit, active, MintingRecord, MintStatus, initiated, checklist_pending, verified,
  minting, completed, rejected, Gdp, Arithmetic,
}
use irg_gdp.Gdp.Minting.{
  MintReply, minted, mint_refused, recorded, is_checklist_complete, is_verified, exceeds_cap,
  get_record, is_user_of, has_record_id, benchmark, new_unit, mint_verified, execute_mint, may_act,
  user_minted_grams,
}
use irg_gdp.Gdp.Minting.Grams.{get_record-user}

-- A record of the user with all five points of the checklist, whose verification is done and whose
-- pure gold, with that of the user's completed records, makes at most 500 g.
abbrev pub IsMintable : ℕ → ℕ → Gdp → MintingRecord → Type 0
IsMintable user id s r =
    (find? (has_record_id id) s.records ≡ some r)
    × (r.user ≡ user)
    × (r.invoice_verified ≡ true)
    × (r.jeweler_certified ≡ true)
    × (r.nw_certified ≡ true)
    × (r.within_cap ≡ true)
    × (r.undertaking_signed ≡ true)
    × (r.status ≡ verified)
    × (user_minted_grams user s.records + r.pure_gold_equivalent ≤ 5000000)

-- The same by the tests of the code.
abbrev IsOpen : ℕ → ℕ → Gdp → MintingRecord → Type 0
IsOpen user id s r =
    (get_record user id s ≡ some r)
    × (is_checklist_complete r ≡ true)
    × (is_verified r.status ≡ true)
    × (exceeds_cap r.user r s ≡ false)

abbrev pub units_after : MintReply → List GdpUnit → List GdpUnit
units_after (minted u) us = u ∷ us
units_after (recorded r) us = us
units_after (mint_refused e) us = us

verified_status : (st : MintStatus) → is_verified st ≡ true → st ≡ verified
verified_status initiated h = ground arith
verified_status checklist_pending h = ground arith
verified_status verified h = refl
verified_status minting h = ground arith
verified_status completed h = ground arith
verified_status rejected h = ground arith

own_record :
    (user : User) (id : ℕ) (s : Gdp) (r : MintingRecord)
    → get_record user.id id s ≡ some r
    → may_act user r ≡ true
unfolding get_record
own_record user id s r f =
    ground (arith, only-some (is_user_of user.id) (find? (has_record_id id) s.records) r f)

open-IsMintable :
    (user id : ℕ) (s : Gdp) (r : MintingRecord) → IsOpen user id s r → IsMintable user id s r
unfolding is_checklist_complete exceeds_cap get_record
open-IsMintable user id s r (f, c, v, x) =
    let (g, _) = only-some (is_user_of user) (find? (has_record_id id) s.records) r f in
    let o = get_record-user user id s r f in
    (
      g,
      o,
      ground (arith, c),
      ground (arith, c),
      ground (arith, c),
      ground (arith, c),
      ground (arith, c),
      verified_status r.status v,
      ground (arith, x, o),
    )

mintable-IsOpen :
    (user id : ℕ) (s : Gdp) (r : MintingRecord) → IsMintable user id s r → IsOpen user id s r
unfolding is_checklist_complete exceeds_cap get_record
mintable-IsOpen user id s r (f, o, a, b, c, d, e, v, x) =
    (ground (arith, f, o), ground (arith, a, b, c, d, e), rw v refl, rw o (ground (arith, x)))

-- The unit of a record: its owner, its gold and its units, and it is active.
abbrev pub IsUnitOf : MintingRecord → GdpUnit → Type 0
IsUnitOf r u =
    (u.owner ≡ r.user)
    × (u.pure_gold_equivalent ≡ r.pure_gold_equivalent)
    × (u.total_units ≡ r.units_to_mint)
    × (u.minting_record ≡ some r.id)
    × (u.status ≡ active)

unit_of :
    (ar : Arithmetic) (unit now rate : ℕ) (h : TxHash) (r : MintingRecord) (u : GdpUnit)
    → u ≡ new_unit ar unit now rate h r
    → IsUnitOf r u
unit_of ar unit now rate h r u e = rw e (refl, refl, refl, refl, refl)

module _ (ar : Arithmetic) (user : User) (id unit now : ℕ) (rate : Option ℕ) (s : Gdp) where
  minted_inverse :
      (tx : Option TxHash) (u : GdpUnit)
      → (execute_mint ar user id unit now rate tx s).0 ≡ minted u
      → (r : MintingRecord) × (h : TxHash) × IsOpen user.id id s r
        × (tx ≡ some h)
        × (u ≡ new_unit ar unit now (benchmark rate) h r)
  unfolding execute_mint mint_verified
  minted_inverse tx u e = elim (Option-cases (get_record user.id id s)) [
    | inl f ↦ ground (arith, f)
    | inr (r, f) ↦ elim (Option-cases tx) [
      | inl g ↦ ground (arith, f, g)
      | inr (h, g) ↦
          let b : (is_checklist_complete r ≡ true)
              × (is_verified r.status ≡ true)
              × (exceeds_cap r.user r s ≡ false)
              × (u ≡ new_unit ar unit now (benchmark rate) h r) =
            ground (arith, f, g) in
          let (c, v, x, y) = b in (r, h, (f, c, v, x), g, y)
    ]
  ]

  -- Of a mintable record of the user, with an answer of the chain, a unit is minted that holds the
  -- record's gold, and the record is completed.
  mintable_runs :
      (r : MintingRecord) (h : TxHash)
      → IsOpen user.id id s r
      → execute_mint ar user id unit now rate (some h) s
        ≡ mint_verified ar unit now rate (some h) r s
  unfolding execute_mint
  mintable_runs r h (f, c, v, x) = ground (arith, f, c, v, x, own_record user id s r f)

  -- The minting answers with a unit exactly if the record is the user's, with all five points of the
  -- checklist, verified, and within 500 g with the completed records of the user, and the chain
  -- answers; the unit is then active, the user's, and holds the record's gold and units.
  pub execute_mint_iff :
      (tx : Option TxHash) (u : GdpUnit)
      → ((execute_mint ar user id unit now rate tx s).0 ≡ minted u) ↔ (
          (r : MintingRecord) × (h : TxHash) × IsMintable user.id id s r
          × (tx ≡ some h)
          × IsUnitOf r u
          × (u ≡ new_unit ar unit now (benchmark rate) h r))
  unfolding mint_verified
  execute_mint_iff tx u = (
    λ e.
        let (r, h, m, g, k) = minted_inverse tx u e in
        (
          r,
          h,
          open-IsMintable user.id id s r m,
          g,
          unit_of ar unit now (benchmark rate) h r u k,
          k,
        ),
    λ (r, h, m, g, _, e). rw (g, e, mintable_runs r h (mintable-IsOpen user.id id s r m)) refl,
  )

  -- A minting that answers with a unit adds this unit and no other; one that does not adds none.
  pub execute_mint-units :
      (tx : Option TxHash)
      → (execute_mint ar user id unit now rate tx s).1.units
        ≡ units_after (execute_mint ar user id unit now rate tx s).0 s.units
  unfolding execute_mint mint_verified
  execute_mint-units none = ground arith
  execute_mint-units (some h) = ground arith
