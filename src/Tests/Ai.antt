-- ===== src/Tests/Ai.antt =====
-- pallets/pallet-qx-ai/src/lib.rs on concrete data: account 7 is a worker, account 1 a customer.
use qxchain.Prelude.{ℕ, ◌≡◌, refl, ◌≢◌, ◌↔◌, inl, some, List, [], ◌∷◌, arith, true, ℕ_discrete}
use qxchain.Errors.{ai}
use qxchain.Frame.{nat_key, bytes_key, ok, err}
use qxchain.Ai.{
  KiltPermissions, Config, Pallet, InferenceRequest, RequestStatus, Error, Call, dispatch, run,
  Step, genesis, submit_request, submit_inference, get_inference_result,
}
use qxchain.Ai.Outcomes.{queue_of, new_request, new_result, Requests, Answers}
use qxchain.Ai.Queues.{IsQueued}
use qxchain.Ai.Records.{IsRecorded}
use qxchain.Ai.History.Runs.{run-genesis, submit_inference_once}
use qxchain.Ai.Lifecycle.{
  submit_request-ok_iff, submit_inference-ok_iff, submit_inference-submit_request,
}
use qxchain.Ai.Replay.Calls.{IsTold, run-genesis-IsTold}
use qxchain.Tests.World.{signed, frame}

-- every account has a DID, and its credential verifies
abbrev everyone : KiltPermissions ℕ
everyone = record { verify_worker_credential = λ d. ok true; get_worker_did = λ a. ok (a ∷ []) }

abbrev config : Config
config = record { max_queue_size = 2 }

abbrev waiting : InferenceRequest ℕ
waiting = new_request frame 3 1 7 (5 ∷ []) 16

-- one request to worker 7 is waiting
abbrev one_waiting : Pallet frame
one_waiting = record {
  authorized_workers = [];
  allowed_models = [];
  next_model_id = 0;
  next_request_id = 1;
  next_inference_id = 0;
  inference_requests = (0, waiting) ∷ [];
  inference_results = [];
  ai_worker_queues = (7, 0 ∷ []) ∷ [];
  request_worker_map = (0, 7) ∷ [];
  ai_worker_status = [];
  events = [];
}

one_waiting-IsQueued : IsQueued frame config one_waiting
one_waiting-IsQueued = record {
  bounded = λ a. ground arith;
  ascending = λ a. ground arith;
  sound = λ a id h. ground arith;
  complete = λ a id h. ground arith;
  fresh = λ id r h. ground arith;
  mapped = λ id. ground arith;
}

one_waiting-IsRecorded : IsRecorded frame one_waiting
one_waiting-IsRecorded = record {
  fresh = λ id r h. ground arith;
  progress = λ id r h. inl (ground arith);
  numbered = λ i x h. absurd (cc);
  recorded = λ i x h. absurd (cc);
  single = λ i j x y h k p. absurd (cc);
  fulfilled = λ id a h. absurd (ground arith);
}

abbrev answer : Call ℕ
answer = Call.submit_inference 0 (9 ∷ [])

-- a second answer to the one request
answered_twice :
    (dispatch frame everyone config 5
      (signed 7)
      answer
      (dispatch frame everyone config 4 (signed 7) answer one_waiting).1).0
    ≡ err (ai Error.request_already_assigned)
unfolding dispatch submit_inference ℕ_discrete
answered_twice = refl

-- a third request to a worker whose queue has two places
abbrev ask : Step frame
ask = (everyone, 4, signed 1, Call.submit_request 7 (5 ∷ []) 16)

queue_full :
    (dispatch frame everyone config 4
      (signed 1)
      (Call.submit_request 7 [] 16)
      (run frame config (ask ∷ ask ∷ []) (genesis frame))).0
    ≡ err (ai Error.ai_worker_queue_full)
unfolding dispatch submit_request run genesis ℕ_discrete
queue_full = refl

run-genesis_example :
    let t = run frame config (ask ∷ (everyone, 6, signed 7, answer) ∷ []) (genesis frame) in
    IsQueued frame config t × IsRecorded frame t
run-genesis_example =
    run-genesis frame config (ask ∷ (everyone, 6, signed 7, answer) ∷ []) (omega arith)

answer_accepted : (dispatch frame everyone config 4 (signed 7) answer one_waiting).0 ≡ ok tt
unfolding dispatch submit_inference ℕ_discrete
answer_accepted = refl

submit_inference_once_example :
    let t = (dispatch frame everyone config 4 (signed 7) answer one_waiting).1 in
    (dispatch frame everyone config 9
      (signed 7)
      (Call.submit_inference 0 (8 ∷ []))
      (run frame config (ask ∷ []) t)).0
    ≢ ok tt
submit_inference_once_example =
    submit_inference_once frame config everyone everyone 4 9 (signed 7) (signed 7) 0 (9 ∷ [])
      (8 ∷ []) (ask ∷ []) one_waiting one_waiting-IsRecorded
      (record { requests = omega arith; inferences = omega arith }) answer_accepted

one_waiting-Requests : Requests frame everyone config (signed 2) 7 one_waiting 2 (7 ∷ [])
unfolding ℕ_discrete
one_waiting-Requests = record {
  signer = refl;
  credential = record { has_did = refl; verifies = refl };
  room = omega arith;
}

submit_inference-submit_request_example :
    let t =
      (dispatch frame everyone config 4
        (signed 2)
        (Call.submit_request 7 (5 ∷ []) 16)
        one_waiting).1 in
    let (r, u) = dispatch frame everyone config 6 (signed 7) (Call.submit_inference 1 (9 ∷ [])) t in
    (r ≡ ok tt)
    × (get_inference_result frame u 0 ≡ some (new_result frame 6 7 (7 ∷ []) 1 (9 ∷ [])))
    × (frame.get u.inference_requests 1
        ≡ some (record (new_request frame 4 2 7 (5 ∷ []) 16) { status = RequestStatus.completed }))
    × ((a : ℕ) → queue_of frame u a ≡ queue_of frame one_waiting a)
submit_inference-submit_request_example =
    submit_inference-submit_request frame everyone config everyone 4 6 (signed 2) (signed 7) 7
      (5 ∷ []) (9 ∷ []) 16 one_waiting 2 (7 ∷ []) (7 ∷ []) one_waiting-IsQueued (omega arith)
      one_waiting-Requests refl (record { has_did = refl; verifies = refl })

submit_request-ok_iff_example :
    ((dispatch frame everyone config 4 (signed 2) (Call.submit_request 7 [] 16) one_waiting).0
      ≡ ok tt)
    ↔ ((who : ℕ) × (did : List ℕ) × Requests frame everyone config (signed 2) 7 one_waiting who did)
submit_request-ok_iff_example =
    submit_request-ok_iff frame everyone config 4 (signed 2) 7 [] 16 one_waiting

submit_inference-ok_iff_example :
    ((dispatch frame everyone config 4 (signed 7) answer one_waiting).0 ≡ ok tt) ↔ (
      (who : ℕ) × (did : List ℕ) × (request : InferenceRequest ℕ) × Answers frame everyone
        (signed 7)
        0
        one_waiting
        who
        did
        request)
submit_inference-ok_iff_example =
    submit_inference-ok_iff frame everyone config 4 (signed 7) 0 (9 ∷ []) one_waiting

abbrev answered_calls : List (Step frame)
answered_calls =
    (everyone, 1, signed 7, Call.update_ai_worker_status true)
    ∷ (everyone, 3, signed 1, Call.submit_request 7 (5 ∷ []) 16)
    ∷ (everyone, 4, signed 7, Call.submit_inference 0 (9 ∷ []))
    ∷ []

run-genesis-IsTold_example : IsTold frame (run frame config answered_calls (genesis frame))
run-genesis-IsTold_example = run-genesis-IsTold frame config answered_calls
