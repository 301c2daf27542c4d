-- ===== src/Tests/Faucet.antt =====
-- pallets/pallet-qx-faucet/src/lib.rs on concrete data: account 0 is the pot, and a claim pays
-- 1000.
use qxchain.Prelude.{
  ℕ, ◌+◌, ◌≤◌, ◌≡◌, refl, ◌≢◌, ◌↔◌, true, List, [], ◌∷◌, arith, saturating_add, ℕ_discrete,
}
use qxchain.Errors.{faucet, currency}
use qxchain.Frame.{nat_key, ok, err}
use qxchain.Faucet.{
  Config, Pallet, Call, Error, invalid, InvalidTransaction, claim, fund_faucet, dispatch, run,
  genesis, validate_unsigned, can_claim, remaining_claims, faucet_balance,
}
use qxchain.Faucet.Claims.{
  claim-validate_unsigned, IsAccepted, PaysOut, validate_unsigned-can_claim, claim-PaysOut,
  claim_near_empty,
}
use qxchain.Faucet.Outcomes.{Claims, claim-ok_iff}
use qxchain.Faucet.Limits.{paid, paid-remaining_claims}
use qxchain.Faucet.Cooldown.{claim-cooldown}
use qxchain.Faucet.Replay.{IsTold, genesis_run-IsTold}
use qxchain.Faucet.Pot.{dispensed, contributed, faucet_balance-run}
use qxchain.Tests.World.{Origin, signed, unsigned, frame, balances}

abbrev config : Config ℕ
config = record {
  drip_amount = 1000;
  claim_cooldown = 10;
  max_claims_per_account = 2;
  faucet_pot = 0;
}

-- every account holds 5000
abbrev rich : Pallet frame balances config
rich = genesis frame balances config (λ a. 5000)

-- every account holds 1200: a drip, and less than a drip above the existential deposit
abbrev poor : Pallet frame balances config
poor = genesis frame balances config (λ a. 1200)

abbrev claims : List (ℕ × Origin ℕ × Call ℕ)
claims =
    (1, unsigned, Call.claim 7)
    ∷ (2, unsigned, Call.claim 7)
    ∷ (11, unsigned, Call.claim 7)
    ∷ (12, signed 8, Call.fund_faucet 300)
    ∷ (30, unsigned, Call.claim 7)
    ∷ []

-- the second claim is too soon, the fourth is over the limit
claims_paid : paid frame balances config 7 claims rich ≡ 2
unfolding paid dispatch claim fund_faucet genesis ℕ_discrete
claims_paid = refl

too_soon :
    (dispatch frame balances config 2 unsigned
      (Call.claim 7)
      (run frame balances config ((1, unsigned, Call.claim 7) ∷ []) rich)).0
    ≡ err (faucet Error.claim_too_soon)
unfolding dispatch run claim genesis ℕ_discrete
too_soon = refl

-- `can_claim` holds, and the claim fails in the transfer
near_empty :
    (can_claim frame balances config 1 poor 7 ≡ true)
    × ((dispatch frame balances config 1 unsigned (Call.claim 7) poor).0 ≡ err (currency 0))
unfolding dispatch claim can_claim genesis ℕ_discrete
near_empty = (refl, refl)

claim_accepted : (dispatch frame balances config 1 unsigned (Call.claim 7) rich).0 ≡ ok tt
unfolding dispatch claim genesis ℕ_discrete
claim_accepted = refl

claim_again :
    let t = (dispatch frame balances config 1 unsigned (Call.claim 7) rich).1 in
    (dispatch frame balances config 15 unsigned
      (Call.claim 7)
      (run frame balances config ((3, unsigned, Call.claim 7) ∷ []) t)).0
    ≡ ok tt
unfolding dispatch run claim genesis ℕ_discrete
claim_again = refl

paid-remaining_claims_example :
    paid frame balances config 7 claims rich
      + remaining_claims frame balances config (run frame balances config claims rich) 7
    ≡ remaining_claims frame balances config rich 7
unfolding genesis
paid-remaining_claims_example =
    paid-remaining_claims frame balances config 7 claims rich (omega arith) (omega arith)

claim-cooldown_example : saturating_add 1 10 ≤ 15
claim-cooldown_example =
    claim-cooldown frame balances config 1 15 unsigned unsigned 7 ((3, unsigned, Call.claim 7) ∷ [])
      rich (omega arith, tt) claim_accepted claim_again

faucet_balance-run_example :
    faucet_balance frame balances config (run frame balances config claims rich)
      + dispensed frame balances config claims rich
    ≡ faucet_balance frame balances config rich + contributed frame balances config claims rich
faucet_balance-run_example = faucet_balance-run frame balances config claims rich

claim-PaysOut_example :
    PaysOut frame balances config 1 7 rich
      (dispatch frame balances config 1 unsigned (Call.claim 7) rich).1
claim-PaysOut_example =
    claim-PaysOut frame balances config 1 unsigned 7 rich (λ e. absurd (omega (arith, e)))
      (omega arith) claim_accepted

validate_unsigned-can_claim_example :
    (IsAccepted frame balances config
        (validate_unsigned frame balances config 1 rich (Call.claim 7))
        7
      ↔ (can_claim frame balances config 1 rich 7 ≡ true))
    × (validate_unsigned frame balances config 1 rich (Call.fund_faucet 5)
        ≡ invalid InvalidTransaction.call)
validate_unsigned-can_claim_example = validate_unsigned-can_claim frame balances config 1 rich 7 5

claim_near_empty_example : (dispatch frame balances config 1 unsigned (Call.claim 7) poor).0 ≢ ok tt
unfolding faucet_balance genesis
claim_near_empty_example =
    claim_near_empty frame balances config 1 unsigned 7 poor (λ e. absurd (omega (arith, e)))
      (omega arith) (omega arith)

claim-ok_iff_example :
    ((dispatch frame balances config 1 unsigned (Call.claim 7) rich).0 ≡ ok tt)
    ↔ ((l : ℕ → ℕ) × Claims frame balances config 1 unsigned 7 rich l)
claim-ok_iff_example = claim-ok_iff frame balances config 1 unsigned 7 rich

claim-validate_unsigned_example :
    (dispatch frame balances config 1 unsigned (Call.claim 7) poor).0 ≡ err (currency 0)
unfolding validate_unsigned genesis ℕ_discrete
claim-validate_unsigned_example =
    claim-validate_unsigned frame balances config 1 poor 7 (ground arith)

genesis_run-IsTold_example :
    IsTold frame balances config
      (λ a. 5000)
      (run frame balances config claims (genesis frame balances config (λ a. 5000)))
genesis_run-IsTold_example =
    genesis_run-IsTold frame balances config (λ a. 5000) claims (omega arith)
