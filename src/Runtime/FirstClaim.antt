-- ===== src/Runtime/FirstClaim.antt =====
-- The first claim from the faucet on a new chain of runtime/src/lib.rs, by what its genesis gives.
use qxchain.Prelude.{ℕ, ◌+◌, ◌≤◌, ◌<◌, ◌^◌, ◌≡◌, ◌≢◌, some, List, Elem, arith}
use qxchain.Frame.{Frame, Key, ok}
use qxchain.Currency.{Currency}
use qxchain.Genesis.{GenesisBuild, Distinct, accounts, AllAtLeast, issuance}
use qxchain.Faucet
use qxchain.Faucet.Outcomes.{claim-ok_iff}
use qxchain.Runtime.{qx_faucet, existential_deposit, faucet_config, dispatch, genesis}

module _ {AccountId : Type 0} ⦃account_key : Key AccountId⦄ (F : Frame AccountId)
    (C : Currency AccountId) (account_id32 : List ℕ → AccountId) (B : GenesisBuild C) where
  open F use {unsigned, get-empty, ensure_none-unsigned}
  open faucet_config account_id32 use {faucet_pot, drip_amount}

  -- On a new chain whose balances can be built, whose pot holds a drip and the existential deposit,
  -- and where one more drip fits a `u128`, any account but the pot can claim, at any block.
  pub first_claim :
      (xs : List (AccountId × ℕ)) (pot_balance now : ℕ) (account : AccountId)
      → C.existential_deposit ≡ existential_deposit
      → Distinct (accounts xs)
      → AllAtLeast existential_deposit xs
      → issuance xs + drip_amount < 2 ^ 128
      → Elem (faucet_pot, pot_balance) xs
      → drip_amount + existential_deposit ≤ pot_balance
      → faucet_pot ≢ account
      → (l : C.Ledger) × (B.build xs ≡ some l)
        × ((dispatch F C account_id32 now unsigned
              (qx_faucet (Faucet.Call.claim account))
              (genesis F C account_id32 l)).0
            ≡ ok tt)
  unfolding dispatch genesis Faucet.genesis Faucet.can_claim
  first_claim xs pot_balance now account ed distinct endowed fits funded enough other =
      let (l, built) = B.build_total xs distinct (rw ed endowed) (omega (arith, fits)) in
      let pot = B.build_present xs l faucet_pot pot_balance built funded in
      let held = B.build_bounded xs l account built in
      let (l', sent) =
        B.build_transfer xs l faucet_pot account drip_amount built other
          (omega (arith, ed, pot, enough)) (omega (arith, ed)) (omega (arith, held, fits)) in
      (
        l,
        built,
        (claim-ok_iff F C (faucet_config account_id32) now unsigned account
              (Faucet.genesis F C (faucet_config account_id32) l)).1
            (
              l',
              record {
                not_signed = ensure_none-unsigned;
                allowed = ground (arith, get-empty {V = ℕ} account, pot, enough);
                transferred = sent;
              },
            ),
      )
