-- ===== src/Runtime.antt =====
-- runtime/src/lib.rs: the constants, the configuration of the three pallets, how they are wired,
-- and the calls of the runtime that reach them.
pub mod Pallets
pub mod ShutOut
pub mod Onboarding
pub mod FirstClaim
pub mod Presets
pub mod Extrinsics
pub mod Fees
pub mod Clock
pub mod Dids
use qxchain.Prelude.{ℕ, ⊤, Bool, true, false, List, [], ◌∷◌, ◌++◌, ◌+◌, ◌*◌, ◌/◌, ◌^◌, replicate}
use qxchain.Frame.{Frame, Key, bytes_key, Exec}
use qxchain.Currency.{Currency}
use qxchain.Kilt
use qxchain.Ai
use qxchain.Ai.{KiltPermissions}
use qxchain.Faucet

-- `MILLI_SECS_PER_BLOCK`, `MINUTES`, `HOURS` and `DAYS`: time in blocks
abbrev pub milli_secs_per_block : ℕ
milli_secs_per_block = 6000

abbrev minutes : ℕ
minutes = 60000 / milli_secs_per_block

abbrev hours : ℕ
hours = minutes * 60

abbrev pub days : ℕ
days = hours * 24

-- `EXISTENTIAL_DEPOSIT`
abbrev pub existential_deposit : ℕ
existential_deposit = 500

-- `MaxAuthorities` of pallet_aura and of pallet_grandpa
abbrev pub max_authorities : ℕ
max_authorities = 32

abbrev pub kilt_config : Kilt.Config
kilt_config = record {
  default_credential_validity = 30 * days;
  worker_suspension_period = 1 * days;
}

abbrev pub ai_config : Ai.Config
ai_config = record { max_queue_size = 100 }

-- `FaucetPotAccount::get`, over `AccountId32::new` of sp_runtime
abbrev faucet_pot_account : {AccountId : Type 0} → (List ℕ → AccountId) → AccountId
faucet_pot_account account_id32 =
    account_id32 (0x71 ∷ 0x78 ∷ 0x2f ∷ 0x66 ∷ 0x61 ∷ 0x75 ∷ 0x63 ∷ 0x65 ∷ 0x74 ∷ replicate 23 0)

abbrev pub faucet_config : {AccountId : Type 0} → (List ℕ → AccountId) → Faucet.Config AccountId
faucet_config account_id32 = record {
  drip_amount = 10000000000000;
  claim_cooldown = 14400;
  max_claims_per_account = 5;
  faucet_pot = faucet_pot_account account_id32;
}

-- the calls of `RuntimeCall` that reach the three pallets
pub data RuntimeCall (AccountId : Type 0) : Type 0 where
  qx_kilt_permissions : Kilt.Call → RuntimeCall AccountId
  qx_ai : Ai.Call AccountId → RuntimeCall AccountId
  qx_faucet : Faucet.Call AccountId → RuntimeCall AccountId

-- `FeelessCalls::contains`
unfoldable pub contains : {AccountId : Type 0} → RuntimeCall AccountId → Bool
contains (qx_faucet (Faucet.Call.claim account)) = true
contains _ = false

module _ {AccountId : Type 0} ⦃account_key : Key AccountId⦄ (F : Frame AccountId)
    (C : Currency AccountId) (account_id32 : List ℕ → AccountId) where
  open F use {Origin}
  open C use {Ledger}

  -- the storage of the three pallets, the ledger with the faucet's
  pub record State : Type 0 where
    pub kilt : Kilt.Pallet F
    pub ai : Ai.Pallet F
    pub faucet : Faucet.Pallet F C (faucet_config account_id32)

  -- `KiltPermissionsImpl`, at a block and over the storage of that moment
  abbrev pub kilt_permissions_impl : ℕ → State → KiltPermissions AccountId
  kilt_permissions_impl now s = record {
    verify_worker_credential = Kilt.verify_worker_credential F now s.kilt;
    get_worker_did = Kilt.get_worker_did F s.kilt;
  }

  unfoldable pub dispatch : ℕ → Origin → RuntimeCall AccountId → Exec State ⊤
  dispatch now o (qx_kilt_permissions c) s =
      let (r, kilt) = Kilt.dispatch F kilt_config now o c s.kilt in (r, record s { kilt = kilt })
  dispatch now o (qx_ai c) s =
      let (r, ai) = Ai.dispatch F (kilt_permissions_impl now s) ai_config now o c s.ai in
      (r, record s { ai = ai })
  dispatch now o (qx_faucet c) s =
      let (r, faucet) = Faucet.dispatch F C (faucet_config account_id32) now o c s.faucet in
      (r, record s { faucet = faucet })

  -- a history of dispatched calls, each with its block number and origin
  abbrev pub Calls : Type 0
  Calls = List (ℕ × Origin × RuntimeCall AccountId)

  unfoldable pub run : Calls → State → State
  run [] s = s
  run ((now, o, c) ∷ cs) s = run cs (dispatch now o c s).1

  -- a new chain, over the ledger of its genesis
  unfoldable pub genesis : Ledger → State
  genesis ledger = record {
    kilt = Kilt.genesis F;
    ai = Ai.genesis F;
    faucet = Faucet.genesis F C (faucet_config account_id32) ledger;
  }
