-- ===== src/Wallet/Recovery/Self.antt =====
-- The self-recovery: the seed phrase of the activation is the one that it accepts.
use irg_gdp.Base.{
  ℕ, ◌+◌, ◌≡◌, ◌≢◌, ◌++◌, any, update_where, ap, sym, refl, true, false, Option, none, some, List,
  [], ◌∷◌, arith, filter, map, leb, is_nonempty, if◌then◌else◌, ◌∙◌, ==_refl,
}
use irg_gdp.Base.Text.{Text, strip}
use irg_gdp.Wallet.Model.{
  Account, RecoveryCase, executed, self, suspended, recovered, Digest, Time, is_active_device,
}
use irg_gdp.Wallet.Monad.{ok}
use irg_gdp.Wallet.Policy.{Platform, normal_word, hash_seed_phrase, clean_words, device_cooling_off}
use irg_gdp.Wallet.Guard.{passed, device_not_ready, check_devices}
use irg_gdp.Wallet.Devices.{DeviceInput, retire_devices, cooling_device, replace_device}
use irg_gdp.Wallet.Devices.Binding.{replaced_actives, replaced_cools, check_devices-devices}
use irg_gdp.Wallet.Activation.{Activation, activated_wallet}
use irg_gdp.Wallet.Recovery.{
  self_case, new_case, has_case_id, self_recover, is_closed_wallet, matches_seed,
  initiate_self_recovery,
}

abbrev pub seed_of : Platform → List Text → Digest
seed_of pf words = hash_seed_phrase pf (map (normal_word pf) words)

recovered_rows :
    (pf : Platform) (case_id device_id : ℕ) (now : Time) (words : List Text) (d : DeviceInput)
    (s : Account) (c : RecoveryCase)
    → (initiate_self_recovery pf case_id device_id now words d s).0 ≡ ok c
    → let t = (initiate_self_recovery pf case_id device_id now words d s).1 in
      (is_closed_wallet s.wallet.state ≡ false)
      × (matches_seed (seed_of pf words) s.wallet.seed_phrase_hash ≡ true)
      × (c.status ≡ executed)
      × (t.cases
          ≡ update_where
              (has_case_id case_id)
              (λ x. record x { status = executed })
              (s.cases ++ (self_case case_id s ∷ [])))
      × (c ≡ record (self_case case_id s) { status = executed })
      × (t.wallet ≡ s.wallet)
      × (t.devices ≡ (replace_device device_id now d s).devices)
unfolding initiate_self_recovery self_recover replace_device retire_devices self_case new_case
recovered_rows pf case_id device_id now words d s c h = ground arith

-- An update of the row with a key that no row before it has.
updated_last :
    (id : ℕ) (f : RecoveryCase → RecoveryCase) (c : RecoveryCase) (cs : List RecoveryCase)
    → any (has_case_id id) cs ≡ false
    → has_case_id id c ≡ true
    → update_where (has_case_id id) f (cs ++ (c ∷ [])) ≡ cs ++ (f c ∷ [])
updated_last id f c [] fresh e = rw e refl
updated_last id f c (x ∷ cs) fresh e = ground (arith, updated_last id f c cs)

matches_seed-eq : (h : Digest) (o : Option Digest) → matches_seed h o ≡ true → o ≡ some h
matches_seed-eq h none e = cc
matches_seed-eq h (some g) e = ground arith

-- A self-recovery that returns was asked of a wallet that is neither suspended nor recovered, with
-- words whose hash is the one on record. The wallet itself stays as it is, with its count of failed
-- passwords. If the key of the case is one that no case has, the answer is the one row that the cases
-- gain, on the self path and stored as executed. The new device is the only active one and has to
-- cool off for 48 hours.
pub self_recovery_ok :
    (pf : Platform) (case_id device_id : ℕ) (now at : Time) (words : List Text) (d : DeviceInput)
    (s : Account) (c : RecoveryCase)
    → any (has_case_id case_id) s.cases ≡ false
    → (initiate_self_recovery pf case_id device_id now words d s).0 ≡ ok c
    → let t = (initiate_self_recovery pf case_id device_id now words d s).1 in
      (s.wallet.state ≢ suspended)
      × (s.wallet.state ≢ recovered)
      × (s.wallet.seed_phrase_hash ≡ some (seed_of pf words))
      × (t.cases ≡ s.cases ++ (c ∷ []))
      × (c.id ≡ case_id)
      × (c.path ≡ self)
      × (c.status ≡ executed)
      × (t.wallet ≡ s.wallet)
      × (filter is_active_device t.devices ≡ cooling_device device_id now d ∷ [])
      × (check_devices at t
          ≡ (if leb (now + device_cooling_off) at then passed else device_not_ready))
unfolding self_case new_case
self_recovery_ok pf case_id device_id now at words d s c fresh h =
    let (free, seed, closed, cases, same, wallet, devices) =
      recovered_rows pf case_id device_id now words d s c h in
    let t = (initiate_self_recovery pf case_id device_id now words d s).1 in
    (
      ground (arith, free),
      ground (arith, free),
      matches_seed-eq (seed_of pf words) s.wallet.seed_phrase_hash seed,
      cases
          ∙ (updated_last case_id (λ x. record x { status = executed }) (self_case case_id s)
                s.cases fresh (==_refl case_id)
              ∙ ap (λ x. s.cases ++ (x ∷ [])) (sym same)),
      ap (λ x. x.id) same,
      ap (λ x. x.path) same,
      closed,
      wallet,
      rw devices (replaced_actives device_id now d s),
      check_devices-devices at t (replace_device device_id now d s) devices
          ∙ replaced_cools device_id now at d s,
    )

abbrev pub AllWords : Platform → List Text → Type 0
AllWords pf [] = Unit
AllWords pf (w ∷ ws) = (is_nonempty (strip pf.is_space w) ≡ true) × AllWords pf ws

clean_words-map :
    (pf : Platform) (ws : List Text) → AllWords pf ws → clean_words pf ws ≡ map (normal_word pf) ws
unfolding clean_words
clean_words-map pf [] h = refl
clean_words-map pf (w ∷ ws) h = ground (arith, clean_words-map pf ws h.1)

-- The words of an activation, none of them blank, recover the wallet, as long as it keeps the seed
-- that the activation wrote and is neither suspended nor recovered.
pub seed_round_trip :
    (pf : Platform) (case_id device_id : ℕ) (made now : Time) (salt : Digest) (a : Activation)
    (d : DeviceInput) (s : Account)
    → AllWords pf a.seed_phrase_words
    → is_closed_wallet s.wallet.state ≡ false
    → s.wallet.seed_phrase_hash ≡ (activated_wallet pf made salt a s.wallet).seed_phrase_hash
    → (c : RecoveryCase) × ((initiate_self_recovery pf case_id device_id now a.seed_phrase_words d
          s).0
        ≡ ok c)
unfolding initiate_self_recovery activated_wallet
seed_round_trip pf case_id device_id made now salt a d s words free kept = (
  record (self_case case_id s) { status = executed },
  ground (
    arith,
    clean_words-map pf a.seed_phrase_words words,
    ==_refl (seed_of pf a.seed_phrase_words),
  ),
)
