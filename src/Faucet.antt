-- ===== src/Faucet.antt =====
-- pallets/pallet-qx-faucet/src/lib.rs: the calls, `validate_unsigned` and the helper functions.
-- `now` is `frame_system::Pallet::<T>::block_number()`.
pub mod Types
pub mod Outcomes
pub mod Claims
pub mod Limits
pub mod Cooldown
pub mod Pot
pub mod Replay
pub use Types.*
use qxchain.Prelude.{
  ℕ, ⊤, Bool, true, false, Option, none, some, List, [], ◌∷◌, ◌++◌, saturating_add, saturating_sub,
  leb, ltb, if◌then◌else◌,
}
use mathlib.Core.Option
use qxchain.Errors.{bad_origin, faucet}
use qxchain.Frame.{Frame, Key, ok_or, Exec, lift, gets, ensure, modify, ◌>>=◌, ◌>>◌}
use qxchain.Currency.{Currency}

module _ {AccountId : Type 0} ⦃account_key : Key AccountId⦄ (F : Frame AccountId)
    (C : Currency AccountId) (config : Config AccountId) where
  open F use {Map, empty, get, insert, Origin, ensure_signed, ensure_none, storage_layer}
  open C use {Ledger, free_balance, transfer}
  open config use {drip_amount, claim_cooldown, max_claims_per_account, faucet_pot}

  abbrev pub Pallet : Type 0
  Pallet = State Map AccountId Ledger

  abbrev deposit_event : Event AccountId → Exec Pallet ⊤
  deposit_event e = modify (λ s. record s { events = s.events ++ e ∷ [] })

  -- `ClaimCount::<T>::get`, a `ValueQuery`
  abbrev pub claim_count_of : Pallet → AccountId → ℕ
  claim_count_of s account = Option.get_or (get s.claim_count account) 0

  -- `if let Some(last) = LastClaim::<T>::get(&account) { ensure!(current_block >= ..) }`
  abbrev pub is_cooled_down : ℕ → Option ℕ → Bool
  is_cooled_down now none = true
  is_cooled_down now (some last) = leb (saturating_add last claim_cooldown) now

  -- `T::Currency::transfer` on the ledger in the state
  pay : AccountId → AccountId → ℕ → Exec Pallet ⊤
  pay from to amount = do
    ledger ← gets (λ s. s.ledger)
    ledger' ← lift (transfer ledger from to amount)
    modify (λ s. record s { ledger = ledger' })

  unfoldable pub claim : ℕ → Origin → AccountId → Exec Pallet ⊤
  unfolding pay
  claim now origin account = do
    ensure (ensure_none origin) bad_origin
    last_opt ← gets (λ s. get s.last_claim account)
    ensure (is_cooled_down now last_opt) (faucet Error.claim_too_soon)
    claims ← gets (λ s. claim_count_of s account)
    ensure (ltb claims max_claims_per_account) (faucet Error.max_claims_reached)
    faucet_balance ← gets (λ s. free_balance s.ledger faucet_pot)
    ensure (leb drip_amount faucet_balance) (faucet Error.faucet_empty)
    pay faucet_pot account drip_amount
    modify (λ s. record s { last_claim = insert s.last_claim account now })
    modify (λ s. record s {
      claim_count = insert s.claim_count account (saturating_add (claim_count_of s account) 1);
    })
    deposit_event (claimed account drip_amount)

  unfoldable pub fund_faucet : Origin → ℕ → Exec Pallet ⊤
  unfolding pay
  fund_faucet origin amount = do
    who ← lift (ok_or (ensure_signed origin) bad_origin)
    pay who faucet_pot amount
    deposit_event (faucet_funded who amount)

  -- `if let Some(last) = LastClaim::<T>::get(account) { if current_block < .. { return .. } }`
  abbrev pub is_too_soon : ℕ → Option ℕ → Bool
  is_too_soon now none = false
  is_too_soon now (some last) = ltb now (saturating_add last claim_cooldown)

  unfoldable pub validate_unsigned : ℕ → Pallet → Call AccountId → TransactionValidity AccountId
  validate_unsigned now s (Call.claim account) =
      if is_too_soon now (get s.last_claim account)
      then invalid stale
      else if leb max_claims_per_account (claim_count_of s account)
      then invalid exhausts_resources
      else if ltb (free_balance s.ledger faucet_pot) drip_amount
      then invalid exhausts_resources
      else valid (record {
        tag_prefix = "QxFaucet";
        priority = 1;
        provides = account;
        longevity = 3;
        propagate = true;
      })
  validate_unsigned now s (Call.fund_faucet amount) = invalid call

  unfoldable pub remaining_claims : Pallet → AccountId → ℕ
  remaining_claims s account = saturating_sub max_claims_per_account (claim_count_of s account)

  unfoldable pub faucet_balance : Pallet → ℕ
  faucet_balance s = free_balance s.ledger faucet_pot

  unfoldable pub can_claim : ℕ → Pallet → AccountId → Bool
  can_claim now s account =
      if leb max_claims_per_account (claim_count_of s account)
      then false
      else if is_too_soon now (get s.last_claim account)
      then false
      else leb drip_amount (free_balance s.ledger faucet_pot)

  -- the call that a transaction names, in its storage layer
  unfoldable pub dispatch : ℕ → Origin → Call AccountId → Exec Pallet ⊤
  dispatch now o (Call.claim account) = storage_layer (claim now o account)
  dispatch now o (Call.fund_faucet amount) = storage_layer (fund_faucet o amount)

  -- a history of dispatched calls, each with its block number and origin
  unfoldable pub run : List (ℕ × Origin × Call AccountId) → Pallet → Pallet
  run [] s = s
  run ((now, o, c) ∷ cs) s = run cs (dispatch now o c s).1

  -- the storage of a new chain, over the ledger of its genesis
  unfoldable pub genesis : Ledger → Pallet
  genesis ledger = record { last_claim = empty; claim_count = empty; ledger = ledger; events = [] }
