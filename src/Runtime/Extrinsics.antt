-- ===== src/Runtime/Extrinsics.antt =====
-- Transactions of runtime/src/lib.rs with a call of the three pallets: `UncheckedExtrinsic`, and
-- what `Executive` and the sudo pallet, crates of the polkadot-sdk, make of one.
pub mod Authority
pub mod Idle
use qxchain.Prelude.{ℕ, ◌≡◌, ◌⊎◌, Option, none, some, List, [], ◌∷◌}
use qxchain.Frame.{Frame, Key}
use qxchain.Currency.{Currency}
use qxchain.Faucet
use qxchain.Faucet.{TransactionValidity, ValidTransaction, valid}
use qxchain.Runtime.{
  RuntimeCall, qx_kilt_permissions, qx_ai, qx_faucet, State, dispatch, faucet_config,
}

-- who sends a call: an account that signs it, an account that signs `Sudo::sudo` or `Sudo::sudo_as`
-- with the call inside, or no one
pub data UncheckedExtrinsic (AccountId : Type 0) : Type 0 where
  signed : AccountId → RuntimeCall AccountId → UncheckedExtrinsic AccountId
  sudo : AccountId → RuntimeCall AccountId → UncheckedExtrinsic AccountId
  sudo_as : AccountId → AccountId → RuntimeCall AccountId → UncheckedExtrinsic AccountId
  bare : RuntimeCall AccountId → UncheckedExtrinsic AccountId

abbrev pub function : {AccountId : Type 0} → UncheckedExtrinsic AccountId → RuntimeCall AccountId
function (signed a c) = c
function (sudo a c) = c
function (sudo_as a who c) = c
function (bare c) = c

module _ {AccountId : Type 0} ⦃account_key : Key AccountId⦄ (F : Frame AccountId)
    (C : Currency AccountId) (account_id32 : List ℕ → AccountId) where
  open F use {Origin, root, unsigned}

  -- `ValidateUnsigned` of the runtime: of the three pallets only the faucet has
  -- `validate_unsigned`. `none` is `UnknownTransaction::NoUnsignedValidator`.
  unfoldable pub validate_unsigned :
      ℕ → RuntimeCall AccountId → State F C account_id32 → Option (TransactionValidity AccountId)
  validate_unsigned now (qx_kilt_permissions c) s = none
  validate_unsigned now (qx_ai c) s = none
  validate_unsigned now (qx_faucet c) s =
      some (Faucet.validate_unsigned F C (faucet_config account_id32) now s.faucet c)

  -- the origins with which the call of an extrinsic may be dispatched, at a block and with the
  -- sudo key of that moment
  abbrev pub Grants :
      ℕ → Option AccountId → State F C account_id32 → UncheckedExtrinsic AccountId → Origin → Type 0
  Grants now key s (signed a c) o = o ≡ F.signed a
  Grants now key s (sudo a c) o = (key ≡ some a) × (o ≡ root)
  Grants now key s (sudo_as a who c) o = (key ≡ some a) × (o ≡ F.signed who)
  Grants now key s (bare c) o =
      (o ≡ unsigned)
      × (t : ValidTransaction AccountId) × (validate_unsigned now c s ≡ some (valid t))

  -- `Executive::apply_extrinsic`, without the fee that `SignedExtra` takes from the ledger. The checks of `SignedExtra` and of the pool decide whether the
  -- call is dispatched at all.
  pub record Executive : Type 0 where
    pub apply_extrinsic :
        ℕ
        → Option AccountId
        → UncheckedExtrinsic AccountId
        → State F C account_id32
        → State F C account_id32
    pub apply_extrinsic_lem :
        (now : ℕ) (key : Option AccountId) (x : UncheckedExtrinsic AccountId)
        (s : State F C account_id32)
        → (apply_extrinsic now key x s ≡ s)
          ⊎ ((o : Origin) × Grants now key s x o
              × (apply_extrinsic now key x s ≡ (dispatch F C account_id32 now o (function x) s).1))

  -- a history of extrinsics, each with its block number and the sudo key of that moment
  abbrev pub Extrinsics : Type 0
  Extrinsics = List (ℕ × Option AccountId × UncheckedExtrinsic AccountId)

  unfoldable pub run_extrinsics :
      Executive → Extrinsics → State F C account_id32 → State F C account_id32
  run_extrinsics E [] s = s
  run_extrinsics E ((now, key, x) ∷ xs) s = run_extrinsics E xs (E.apply_extrinsic now key x s)
