-- ===== src/Faucet/Types.antt =====
-- The data of pallets/pallet-qx-faucet/src/lib.rs.
use Prim.Native.String.{String}
use qxchain.Prelude.{ℕ, Bool, List}

pub data Event (AccountId : Type 0) : Type 0 where
  claimed : AccountId → ℕ → Event AccountId
  faucet_funded : AccountId → ℕ → Event AccountId

pub data Error : Type 0 where
  claim_too_soon max_claims_reached faucet_empty : Error

-- the storage items, the ledger of the currency, and the events deposited so far
pub record State (Map : Type 0 → Type 0 → Type 0) (AccountId Ledger : Type 0) : Type 0 where
  pub last_claim : Map AccountId ℕ
  pub claim_count : Map AccountId ℕ
  pub ledger : Ledger
  pub events : List (Event AccountId)

-- the constants of `Config`
pub record Config (AccountId : Type 0) : Type 0 where
  pub drip_amount : ℕ
  pub claim_cooldown : ℕ
  pub max_claims_per_account : ℕ
  pub faucet_pot : AccountId

-- the enum that `#[pallet::call]` makes, a constructor for each call with its arguments
pub data Call (AccountId : Type 0) : Type 0 where
  claim : AccountId → Call AccountId
  fund_faucet : ℕ → Call AccountId

-- the reasons for which `validate_unsigned` refuses a transaction
pub data InvalidTransaction : Type 0 where
  stale exhausts_resources call : InvalidTransaction

-- what `validate_unsigned` sets of an accepted transaction
pub record ValidTransaction (AccountId : Type 0) : Type 0 where
  pub tag_prefix : String
  pub priority : ℕ
  pub provides : AccountId
  pub longevity : ℕ
  pub propagate : Bool

pub data TransactionValidity (AccountId : Type 0) : Type 0 where
  valid : ValidTransaction AccountId → TransactionValidity AccountId
  invalid : InvalidTransaction → TransactionValidity AccountId
