-- ===== src/Tests/Kilt.antt =====
-- pallets/pallet-qx-kilt-permissions/src/lib.rs on concrete data: accounts 7 and 8 are workers, and
-- 7 has a credential.
use qxchain.Prelude.{
  ℕ, ◌≡◌, refl, true, false, none, some, List, [], ◌∷◌, arith, ltb, saturating_add, if◌then◌else◌,
  ℕ_discrete,
}
use qxchain.Errors.{kilt}
use qxchain.Frame.{nat_key, bytes_key, bytes_discrete, ok, err}
use qxchain.Kilt.{
  genesis, Config, Pallet, Call, Error, DidIdentifier, WorkerDid, AiWorkerCredential, active,
  generate_did, create_worker_did, issue_worker_credential, suspend_first, suspend_worker,
  verify_status, status_allows, verify_worker_credential, get_worker_did, run,
}
use qxchain.Kilt.Invariant.{IsValid}
use qxchain.Kilt.Access.{get_worker_did-run}
use qxchain.Kilt.Credentials.{
  NoCollision, verify_worker_credential-issue, verify_worker_credential-models,
}
use qxchain.Kilt.Suspension.{SuspendsOnly, suspend_worker-SuspendsOnly}
use qxchain.Frame.Order.{reordered}
use qxchain.Kilt.Order.{run-reordered}
use qxchain.Kilt.Replay.{replay, empty_book, verify}
use qxchain.Kilt.Replay.Calls.{verify_worker_credential-replay}
use qxchain.Tests.World.{Origin, signed, root, frame, last_first}

abbrev config : Config
config = record { default_credential_validity = 432000; worker_suspension_period = 14400 }

abbrev pub did : ℕ → DidIdentifier
did a = generate_did frame a

abbrev pub worker : ℕ → WorkerDid ℕ
worker a = record {
  did = did a;
  account = a;
  metadata = record { name = 81 ∷ []; description = []; registered_at = 1 };
  status = active;
}

abbrev pub credential : AiWorkerCredential
credential = record {
  issuer = [];
  subject = did 7;
  models = 3 ∷ [];
  issued_at = 2;
  expires_at = some 100;
}

abbrev pub two_workers : Pallet frame
two_workers = record {
  worker_dids = (7, worker 7) ∷ (8, worker 8) ∷ [];
  worker_credentials = (did 7, credential) ∷ [];
  account_to_did = (7, did 7) ∷ (8, did 8) ∷ [];
  governance_did = [];
  events = [];
}

pub two_workers-IsValid : IsValid frame two_workers
two_workers-IsValid = record {
  workers = λ a w h. ground arith;
  credentials = λ d c h. ground arith;
  reverse = λ a. ground arith;
}

first_byte-did : (a b : ℕ) → did a ≡ did b → a ≡ b
unfolding generate_did
first_byte-did a b h = cc

pub frame-NoCollision : NoCollision frame
frame-NoCollision = record { injective = first_byte-did }

-- 7 is suspended for 10 blocks at block 5: its credential fails at block 15 and verifies at block
-- 16
suspended_until_15 :
    let t = (suspend_worker frame config 5 root (did 7) (some 10) two_workers).1 in
    (verify_worker_credential frame 15 t (did 7) ≡ ok false)
    × (verify_worker_credential frame 16 t (did 7) ≡ ok true)
    × (verify_worker_credential frame 101 t (did 7) ≡ ok false)
unfolding suspend_worker suspend_first verify_worker_credential verify_status status_allows
    generate_did ℕ_discrete bytes_discrete
suspended_until_15 = (refl, refl, refl)

second_did :
    (create_worker_did frame 9 (signed 7) [] [] two_workers).0
    ≡ err (kilt Error.worker_did_already_exists)
unfolding create_worker_did ℕ_discrete
second_did = refl

abbrev calls : List (ℕ × Origin ℕ × Call)
calls =
    (5, signed 9, Call.create_worker_did [] [])
    ∷ (6, root, Call.suspend_worker (did 8) none)
    ∷ (7, signed 7, Call.revoke_worker_credential (did 7))
    ∷ []

did_of_7 : get_worker_did frame two_workers 7 ≡ ok (did 7)
unfolding get_worker_did ℕ_discrete
did_of_7 = refl

get_worker_did-run_example :
    get_worker_did frame (run frame config calls two_workers) 7 ≡ ok (did 7)
get_worker_did-run_example =
    get_worker_did-run frame config calls two_workers 7 (did 7) two_workers-IsValid did_of_7

pub entry_of_7 : frame.get two_workers.worker_dids 7 ≡ some (worker 7)
unfolding ℕ_discrete
entry_of_7 = refl

credential_of_7 : frame.get two_workers.worker_credentials (did 7) ≡ some credential
credential_of_7 = ground arith

verify_worker_credential-issue_example :
    let (r, t) = issue_worker_credential frame 20 root (did 7) (1 ∷ 2 ∷ []) (some 30) two_workers in
    (r ≡ ok tt)
    × (verify_worker_credential frame 40 t (did 7)
        ≡ ok (if ltb (saturating_add 20 30) 40 then false else status_allows 40 active))
verify_worker_credential-issue_example =
    verify_worker_credential-issue frame 20 40 root (1 ∷ 2 ∷ []) (some 30) two_workers 7 (worker 7)
      two_workers-IsValid frame-NoCollision refl (omega arith) entry_of_7

verify_worker_credential-models_example :
    verify_worker_credential frame 50
      (record two_workers {
        worker_credentials =
            frame.insert two_workers.worker_credentials (did 7) (record credential { models = [] });
      })
      (did 7)
    ≡ verify_worker_credential frame 50 two_workers (did 7)
verify_worker_credential-models_example =
    verify_worker_credential-models frame 50 two_workers (did 7) (did 7) credential []
      credential_of_7

suspend_worker-SuspendsOnly_example :
    let (r, t) = suspend_worker frame config 5 root (did 7) none two_workers in
    (r ≡ ok tt) × SuspendsOnly frame 30 (saturating_add 5 14400) 7 two_workers t
suspend_worker-SuspendsOnly_example =
    suspend_worker-SuspendsOnly frame config 5 30 root none two_workers 7 (worker 7)
      two_workers-IsValid frame-NoCollision refl entry_of_7

verify_worker_credential-replay_example :
    let s = run frame config calls (genesis frame) in
    verify_worker_credential frame 20 s (did 7) ≡ verify 20 (replay s.events empty_book) (did 7)
verify_worker_credential-replay_example =
    verify_worker_credential-replay frame frame-NoCollision config calls 20 (did 7)

run-reordered_example :
    (run frame config calls two_workers ≡ run (reordered frame last_first) config calls two_workers)
    × (verify_worker_credential frame 20 (run frame config calls two_workers) (did 7)
        ≡ verify_worker_credential
            (reordered frame last_first)
            20
            (run (reordered frame last_first) config calls two_workers)
            (did 7))
run-reordered_example =
    run-reordered frame last_first frame-NoCollision config calls two_workers 20 (did 7)
      two_workers-IsValid
