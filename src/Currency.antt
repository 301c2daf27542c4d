-- ===== src/Currency.antt =====
-- What the faucet uses of `Currency` (the trait of frame_support that pallet_balances implements):
-- balances, and transfers that must keep their source alive (`ExistenceRequirement::KeepAlive`),
-- with the laws that its documentation states. A transfer returns the new ledger, or an error with
-- the ledger as it was.
use qxchain.Prelude.{ℕ, ◌+◌, ◌≤◌, ◌<◌, ◌≡◌, ◌≢◌}
use qxchain.Frame.{Result, ok}

pub record Currency (AccountId : Type 0) : Type 1 where
  pub Ledger : Type 0
  pub existential_deposit : ℕ
  pub free_balance : Ledger → AccountId → ℕ
  pub transfer : Ledger → AccountId → AccountId → ℕ → Result Ledger
  pub transfer_from :
      (l l' : Ledger) (from to : AccountId) (v : ℕ)
      → transfer l from to v ≡ ok l'
      → from ≢ to
      → free_balance l' from + v ≡ free_balance l from
  pub transfer_to :
      (l l' : Ledger) (from to : AccountId) (v : ℕ)
      → transfer l from to v ≡ ok l'
      → from ≢ to
      → free_balance l' to ≡ free_balance l to + v
  pub transfer_other :
      (l l' : Ledger) (from to b : AccountId) (v : ℕ)
      → transfer l from to v ≡ ok l'
      → b ≢ from
      → b ≢ to
      → free_balance l' b ≡ free_balance l b
  -- an account that pays itself keeps what it has
  pub transfer_self :
      (l l' : Ledger) (a : AccountId) (v : ℕ)
      → transfer l a a v ≡ ok l'
      → free_balance l' a ≡ free_balance l a
  pub transfer_keeps_alive :
      (l l' : Ledger) (from to : AccountId) (v : ℕ)
      → transfer l from to v ≡ ok l'
      → from ≢ to
      → 0 < v
      → existential_deposit ≤ free_balance l' from
