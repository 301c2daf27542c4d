-- ===== src/Errors.antt =====
-- `DispatchError`, as far as the three pallets make one: the `Error` enum of each pallet, a bad
-- origin, and what the currency returns.
use qxchain.Kilt.Types.{Error as KiltError}
use qxchain.Ai.Types.{Error as AiError}
use qxchain.Faucet.Types.{Error as FaucetError}
use qxchain.Prelude.{ℕ}

pub data DispatchError : Type 0 where
  bad_origin : DispatchError
  kilt : KiltError → DispatchError
  ai : AiError → DispatchError
  faucet : FaucetError → DispatchError
  currency : ℕ → DispatchError
