-- ===== src/Tests/Clock.antt =====
-- The clock of runtime/src/lib.rs on concrete data: a chain with a block at the start of every
-- slot.
use qxchain.Prelude.{ℕ, ◌+◌, ◌*◌, ◌/◌, ◌<◌, ◌≡◌, refl, none, [], ◌∷◌, arith, ℕ_discrete}
use qxchain.Frame.{nat_key, bytes_key, ok}
use qxchain.Kilt
use qxchain.Kilt.{generate_did}
use qxchain.Faucet
use qxchain.Runtime.{qx_kilt_permissions, qx_faucet, Calls, dispatch, run, genesis}
use qxchain.Runtime.Clock.{Aura, Clock, aura_config, slot_duration}
use qxchain.Runtime.Clock.Days.{day, claim-day, suspend_worker-day}
use qxchain.Runtime.ShutOut.{IsShutOut}
use qxchain.Tests.World.{signed, root, unsigned, frame, balances}
use qxchain.Tests.Kilt.{two_workers-IsValid, worker, frame-NoCollision, entry_of_7}
use qxchain.Tests.Runtime.{pot, staffed}

abbrev doubling : Aura
doubling = record {
  minimum_period_times_two = λ t. t.minimum_period * 2;
  minimum_period_times_two_lem = λ t h. refl;
}

slot-at : (n : ℕ) → n ≡ n * 6000 / 6000
slot-at n = omega arith

unfoldable punctual : Clock (aura_config doubling)
unfolding aura_config
punctual = record {
  moment = λ n. n * 6000;
  current_slot = λ n. n;
  current_slot_next = λ n. omega arith;
  current_slot-moment = slot-at;
}

abbrev claim : Faucet.Call ℕ
claim = Faucet.Call.claim 1

-- account 2 funds the pot between the two claims
abbrev funding : Calls frame balances pot
funding = (9, signed 2, qx_faucet (Faucet.Call.fund_faucet 10)) ∷ []

first : (dispatch frame balances pot 5 unsigned (qx_faucet claim) staffed).0 ≡ ok tt
unfolding dispatch genesis Faucet.dispatch Faucet.claim Faucet.genesis ℕ_discrete
first = refl

second :
    (dispatch frame balances pot 14405 unsigned (qx_faucet claim) (
      run frame balances pot funding
        (dispatch frame balances pot 5 unsigned (qx_faucet claim) staffed).1)).0
    ≡ ok tt
unfolding dispatch run genesis Faucet.dispatch Faucet.claim Faucet.fund_faucet Faucet.genesis
    ℕ_discrete
second = refl

claim-day_example : punctual.moment 5 + day < punctual.moment 14405 + slot_duration
claim-day_example =
    claim-day frame balances pot doubling punctual 5 14405 unsigned unsigned 1 funding staffed
      (omega arith) (omega arith) first second

suspend_worker-day_example :
    let c = qx_kilt_permissions (Kilt.Call.suspend_worker (generate_did frame 7) none) in
    IsShutOut frame balances pot 14405 7
      (run frame balances pot funding (dispatch frame balances pot 5 root c staffed).1)
unfolding punctual
suspend_worker-day_example =
    suspend_worker-day frame balances pot doubling punctual 5 14405 root funding staffed 7
      (worker 7) two_workers-IsValid frame-NoCollision refl entry_of_7 (refl, tt) (omega arith)
      (omega arith)
