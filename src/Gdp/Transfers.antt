-- ===== src/Gdp/Transfers.antt =====
-- TransferViewSet and EarmarkingViewSet of backend/irg_gdp/views.py.
pub mod Conservation
use irg_gdp.Base.{
  ℕ, ◌*◌, ◌/◌, Bool, true, false, ◌&&◌, Option, none, some, ◌∷◌, find?, only, save_row, ltb, ◌==◌,
  if◌then◌else◌,
}
use irg_gdp.Gdp.Model.{
  TxHash, GdpUnit, active, earmarked, transferred, TransferType, TransferRecord, EarmarkingRecord,
  EarmarkStatus, earmark_active, released, Gdp, Arithmetic, has_unit_id, get_active_unit, save_unit,
}

pub data TransferError : Type 0 where
  unit_not_found recipient_not_found transfer_failed : TransferError

pub data TransferReply : Type 0 where
  transferred_as : TransferRecord → TransferReply
  transfer_refused : TransferError → TransferReply

-- The unit that the recipient gets.
abbrev pub copy_for : ℕ → ℕ → ℕ → TxHash → GdpUnit → GdpUnit
copy_for id to now h u = record u {
  id = id;
  owner = to;
  status = active;
  minting_tx_hash = h;
  minted_at = now;
}

abbrev pub hand_over : ℕ → GdpUnit → GdpUnit
hand_over to u = record u { owner = to; status = transferred }

abbrev pub new_transfer : ℕ → ℕ → ℕ → TransferType → TxHash → GdpUnit → TransferRecord
new_transfer id user to kind h u = record {
  id = id;
  from_user = user;
  to_user = to;
  gdp_unit = u.id;
  transfer_type = kind;
  transfer_tx_hash = h;
}

abbrev pub add_unit : GdpUnit → Gdp → Gdp
add_unit u s = record s { units = u ∷ s.units }

-- `to` is the user with the recipient's address; `copy_id` and `id` are the keys of the new rows.
unfoldable pub transfer :
    ℕ → ℕ → ℕ → ℕ → ℕ → Option ℕ → TransferType → Option TxHash → Gdp → TransferReply × Gdp
unfolding get_active_unit
transfer id copy_id user now unit to kind tx s = elim (get_active_unit user unit s) [
  | none ↦ (transfer_refused unit_not_found, s)
  | some u ↦ elim to [
    | none ↦ (transfer_refused recipient_not_found, s)
    | some r ↦ elim tx [
      | none ↦ (transfer_refused transfer_failed, s)
      | some h ↦
          let t = new_transfer id user r kind h u in
          (
            transferred_as t,
            add_unit (copy_for copy_id r now h u)
                (save_unit (hand_over r u) (record s { transfers = t ∷ s.transfers })),
          )
    ]
  ]
]

pub data EarmarkError : Type 0 where
  fields_required active_unit_not_found earmark_failed earmark_not_found : EarmarkError
  not_active date_not_reached : EarmarkError

pub data EarmarkReply : Type 0 where
  earmark_saved : EarmarkingRecord → EarmarkReply
  earmark_refused : EarmarkError → EarmarkReply

abbrev pub new_earmark : Arithmetic → ℕ → ℕ → ℕ → ℕ → TxHash → GdpUnit → EarmarkingRecord
new_earmark ar id user rate date h u = record {
  id = id;
  user = user;
  gdp_unit = u.id;
  amount = ar.quantize 4 (u.benchmark_value * rate);
  rate_percent = rate;
  release_date = date;
  status = earmark_active;
  released_at = none;
  earmark_tx_hash = h;
  release_tx_hash = none;
}

abbrev pub earmark_unit : GdpUnit → GdpUnit
earmark_unit u = record u { status = earmarked }

-- A missing rate is 11 per cent.
abbrev pub rate_or_default : Option ℕ → ℕ
rate_or_default none = 1100
rate_or_default (some r) = r

unfoldable pub earmark_found :
    Arithmetic → ℕ → ℕ → ℕ → ℕ → Option ℕ → Option TxHash → Gdp → EarmarkReply × Gdp
unfolding get_active_unit
earmark_found ar id user unit date rate tx s = elim (get_active_unit user unit s) [
  | none ↦ (earmark_refused active_unit_not_found, s)
  | some u ↦ elim tx [
    | none ↦ (earmark_refused earmark_failed, s)
    | some h ↦
        let e = new_earmark ar id user (rate_or_default rate) date h u in
        (earmark_saved e, save_unit (earmark_unit u) (record s { earmarks = e ∷ s.earmarks }))
  ]
]

unfoldable pub create_earmark :
    Arithmetic → ℕ → ℕ → Option ℕ → Option ℕ → Option ℕ → Option TxHash → Gdp → EarmarkReply × Gdp
unfolding earmark_found
create_earmark ar id user none date rate tx s = (earmark_refused fields_required, s)
create_earmark ar id user (some unit) none rate tx s = (earmark_refused fields_required, s)
create_earmark ar id user (some unit) (some date) rate tx s =
    earmark_found ar id user unit date rate tx s

abbrev pub has_earmark_id : ℕ → EarmarkingRecord → Bool
has_earmark_id id e = e.id == id

abbrev pub is_earmark_of : ℕ → EarmarkingRecord → Bool
is_earmark_of user e = e.user == user

unfoldable pub get_earmark : ℕ → ℕ → Gdp → Option EarmarkingRecord
get_earmark user id s = only (is_earmark_of user) (find? (has_earmark_id id) s.earmarks)

abbrev pub is_earmark_active : EarmarkStatus → Bool
is_earmark_active earmark_active = true
is_earmark_active _ = false

abbrev pub mark_released : ℕ → TxHash → EarmarkingRecord → EarmarkingRecord
mark_released now h e = record e {
  status = released;
  released_at = some now;
  release_tx_hash = some h;
}

abbrev pub save_earmark : EarmarkingRecord → Gdp → Gdp
save_earmark e s = record s { earmarks = save_row (has_earmark_id e.id) e s.earmarks }

abbrev pub activate_unit : GdpUnit → GdpUnit
activate_unit u = record u { status = active }

-- `record.gdp_unit.status = 'ACTIVE'`, with its save
unfoldable pub reactivate : ℕ → Gdp → Gdp
reactivate id s = elim (find? (has_unit_id id) s.units) [
  | none ↦ s
  | some u ↦ save_unit (activate_unit u) s
]

unfoldable pub settle_release : ℕ → TxHash → EarmarkingRecord → Gdp → EarmarkReply × Gdp
unfolding reactivate
settle_release now h e s = (
  earmark_saved (mark_released now h e),
  reactivate e.gdp_unit (save_earmark (mark_released now h e) s),
)

-- `now.date() < release_date`
unfoldable pub release : ℕ → ℕ → ℕ → Option TxHash → Gdp → EarmarkReply × Gdp
unfolding settle_release get_earmark
release user id now tx s = elim (get_earmark user id s) [
  | none ↦ (earmark_refused earmark_not_found, s)
  | some e ↦
      if is_earmark_active e.status
      then (if ltb (now / 86400) e.release_date
          then (earmark_refused date_not_reached, s)
          else elim tx [
            | none ↦ (earmark_refused earmark_failed, s)
            | some h ↦ settle_release now h e s
          ])
      else (earmark_refused not_active, s)
]
