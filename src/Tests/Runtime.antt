-- ===== src/Tests/Runtime.antt =====
-- runtime/src/lib.rs on concrete data: account 0 is the pot of the faucet, 7 a new worker and 1 a
-- customer.
use qxchain.Prelude.{ℕ, ◌≡◌, refl, ◌⊎◌, true, some, none, List, [], ◌∷◌, arith}
use qxchain.Frame.{nat_key, bytes_key, ok}
use qxchain.Kilt
use qxchain.Kilt.{generate_did}
use qxchain.Ai
use qxchain.Faucet
use qxchain.Kilt.Invariant.{genesis-IsValid}
use qxchain.Ai.Outcomes.{new_result}
use qxchain.Ai.Queues.{IsQueued}
use qxchain.Runtime.{
  qx_kilt_permissions, qx_ai, qx_faucet, State, Calls, dispatch, run, genesis, ai_config,
}
use qxchain.Runtime.Pallets.{IsSound, run-IsSound}
use qxchain.Runtime.ShutOut.{
  IsShutOut, suspend_worker-IsShutOut, revoke_worker_credential-IsShutOut,
}
use qxchain.Runtime.Onboarding.{onboarding}
use qxchain.Runtime.Fees.{get_dispatch_info}
use qxchain.Runtime.Fees.Free.{Failed, FromWorker, FromClaimant, dispatch-free}
use qxchain.Runtime.Dids.{IsLinked, run-genesis-IsLinked}
use qxchain.Tests.World.{signed, root, unsigned, frame, balances}
use qxchain.Tests.Kilt.{two_workers, two_workers-IsValid, worker, frame-NoCollision, entry_of_7}

abbrev pub pot : List ℕ → ℕ
pot bytes = 0

abbrev pub chain : State frame balances pot
chain = genesis frame balances pot (λ a. 90000000000000)

-- the same chain, where 7 and 8 are workers and 7 has a credential
abbrev pub staffed : State frame balances pot
staffed = record chain { kilt = two_workers }

abbrev calls : Calls frame balances pot
calls =
    (1, signed 7, qx_kilt_permissions (Kilt.Call.create_worker_did [] []))
    ∷ (2, unsigned, qx_faucet (Faucet.Call.claim 1))
    ∷ (3, signed 1, qx_ai (Ai.Call.submit_request 7 (5 ∷ []) 16))
    ∷ []

run-IsSound_example : IsSound frame balances pot (run frame balances pot calls chain)
run-IsSound_example = run-IsSound frame balances pot calls (λ a. 90000000000000) (omega arith)

suspend_worker-IsShutOut_example :
    let c = qx_kilt_permissions (Kilt.Call.suspend_worker (generate_did frame 7) none) in
    IsShutOut frame balances pot 9000 7
      (run frame balances pot calls (dispatch frame balances pot 5 root c staffed).1)
suspend_worker-IsShutOut_example =
    suspend_worker-IsShutOut frame balances pot 5 9000 root none calls staffed 7 (worker 7)
      two_workers-IsValid frame-NoCollision refl entry_of_7 (refl, (refl, (refl, tt))) (omega arith)

revoke_worker_credential-IsShutOut_example :
    let c = qx_kilt_permissions (Kilt.Call.revoke_worker_credential (generate_did frame 7)) in
    IsShutOut frame balances pot 9000 7
      (run frame balances pot calls (dispatch frame balances pot 5 root c staffed).1)
revoke_worker_credential-IsShutOut_example =
    revoke_worker_credential-IsShutOut frame balances pot 5 9000 root calls staffed 7
      two_workers-IsValid refl (refl, (refl, (refl, tt)))

empty-IsQueued : IsQueued frame ai_config chain.ai
unfolding genesis Ai.genesis
empty-IsQueued = record {
  bounded = λ a. omega arith;
  ascending = λ a. tt;
  sound = λ a id h. absurd h;
  complete = λ a id h. absurd h;
  fresh = λ id r h. absurd (cc);
  mapped = λ id. refl;
}

onboarding_example :
    let did = generate_did frame 7 in
    let s1 =
      (dispatch frame balances pot 1
        (signed 7)
        (qx_kilt_permissions (Kilt.Call.create_worker_did (81 ∷ []) []))
        chain).1 in
    let s2 =
      (dispatch frame balances pot 2 root
        (qx_kilt_permissions (Kilt.Call.issue_worker_credential did (3 ∷ []) (some 100)))
        s1).1 in
    let (r3, s3) =
      dispatch frame balances pot 50 (signed 1) (qx_ai (Ai.Call.submit_request 7 (5 ∷ []) 16)) s2 in
    let (r4, s4) =
      dispatch frame balances pot 60
        (signed 7)
        (qx_ai (Ai.Call.submit_inference chain.ai.next_request_id (9 ∷ [])))
        s3 in
    (r3 ≡ ok tt)
    × (r4 ≡ ok tt)
    × (Ai.get_inference_result frame s4.ai chain.ai.next_inference_id
        ≡ some (new_result frame 60 7 did chain.ai.next_request_id (9 ∷ [])))
unfolding genesis Ai.genesis Kilt.genesis
onboarding_example =
    onboarding frame balances pot 1 2 50 60 root 7 1 (81 ∷ []) [] (5 ∷ []) (9 ∷ []) (3 ∷ []) 100 16
      chain (genesis-IsValid frame) frame-NoCollision empty-IsQueued (omega arith) refl
      (omega arith) (omega arith) refl (omega arith) (omega arith) (omega arith) (omega arith)

run-genesis-IsLinked_example :
    let t = run frame balances pot calls chain in IsLinked frame t.kilt t.ai
run-genesis-IsLinked_example = run-genesis-IsLinked frame balances pot calls (λ a. 90000000000000)

-- worker 7 says that it is online, and no fee is taken
dispatch-free_example :
    let c = qx_ai (Ai.Call.update_ai_worker_status true) in
    Failed frame balances pot staffed (dispatch frame balances pot 5 (signed 7) c staffed)
    ⊎ (FromWorker frame balances pot 5 (signed 7) staffed
        ⊎ FromClaimant frame balances pot 5 (signed 7) c staffed)
unfolding get_dispatch_info
dispatch-free_example =
    dispatch-free frame balances pot 5 (signed 7) (qx_ai (Ai.Call.update_ai_worker_status true))
      staffed refl
