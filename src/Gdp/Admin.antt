-- ===== src/Gdp/Admin.antt =====
-- The actions of backend/irg_gdp/admin.py on the rows that an administrator has chosen.
use irg_gdp.Base.{
  ℕ, Bool, true, false, ◌&&◌, Option, none, some, List, [], ◌∷◌, filter, update_where, not,
  if◌then◌else◌,
}
use irg_gdp.Gdp.Model.{
  TxHash, MintingRecord, MintStatus, initiated, checklist_pending, verified, completed, rejected,
  by_admin, EarmarkingRecord, Gdp, Arithmetic,
}
use irg_gdp.Gdp.Minting.{is_checklist_complete, mint_verified, is_verified, reject}
use irg_gdp.Gdp.Transfers.{settle_release, is_earmark_active}

-- One round of the loop: an incomplete checklist is passed over.
unfoldable pub mint_one : Arithmetic → ℕ → ℕ → Option ℕ → Option TxHash → MintingRecord → Gdp → Gdp
unfolding is_checklist_complete mint_verified
mint_one ar unit now rate tx r s =
    if is_checklist_complete r then (mint_verified ar unit now rate tx r s).1 else s

-- The key of the unit of each record, and what the chain answers.
module _ (ar : Arithmetic) (key : MintingRecord → ℕ) (tx : MintingRecord → Option TxHash) where
  unfoldable pub mint_each : ℕ → Option ℕ → List MintingRecord → Gdp → Gdp
  unfolding mint_one
  mint_each now rate [] s = s
  mint_each now rate (r ∷ rs) s = mint_each now rate rs (mint_one ar (key r) now rate (tx r) r s)

  -- `_execute_mint`
  unfoldable pub admin_execute_mint : (MintingRecord → Bool) → ℕ → Option ℕ → Gdp → Gdp
  unfolding mint_each
  admin_execute_mint chosen now rate s =
      mint_each now rate (filter (λ r. chosen r && is_verified r.status) s.records) s

abbrev pub is_closed_record : MintStatus → Bool
is_closed_record completed = true
is_closed_record rejected = true
is_closed_record _ = false

-- `_reject_mint`
unfoldable pub admin_reject_mint : (MintingRecord → Bool) → Gdp → Gdp
admin_reject_mint chosen s = record s {
  records =
      update_where (λ r. chosen r && not (is_closed_record r.status)) (reject by_admin) s.records;
}

abbrev pub awaits_checklist : MintStatus → Bool
awaits_checklist initiated = true
awaits_checklist checklist_pending = true
awaits_checklist _ = false

abbrev pub approve_record : MintingRecord → MintingRecord
approve_record r = record r {
  invoice_verified = true;
  jeweler_certified = true;
  nw_certified = true;
  within_cap = true;
  undertaking_signed = true;
  status = verified;
}

-- `_approve_checklist`
unfoldable pub admin_approve_checklist : (MintingRecord → Bool) → Gdp → Gdp
admin_approve_checklist chosen s = record s {
  records = update_where (λ r. chosen r && awaits_checklist r.status) approve_record s.records;
}

module _ (tx : EarmarkingRecord → Option TxHash) where
  -- The first call of the chain that raises ends the loop; what is saved before stays saved.
  unfoldable pub release_each : ℕ → List EarmarkingRecord → Gdp → Gdp
  unfolding settle_release
  release_each now [] s = s
  release_each now (e ∷ es) s = elim (tx e) [
    | none ↦ s
    | some h ↦ release_each now es (settle_release now h e s).1
  ]

  -- `_release_earmark`
  unfoldable pub admin_release_earmark : (EarmarkingRecord → Bool) → ℕ → Gdp → Gdp
  unfolding release_each
  admin_release_earmark chosen now s =
      release_each now (filter (λ e. chosen e && is_earmark_active e.status) s.earmarks) s
