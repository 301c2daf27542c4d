-- ===== src/Ai/Replay/Calls.antt =====
-- Every call of pallets/pallet-qx-ai/src/lib.rs, against the events that it deposits.
use qxchain.Prelude.{ℕ, ◌≡◌, inl, inr, Bool, some, List, [], ◌∷◌, ◌++◌, arith, true}
use qxchain.Frame.{Frame, Key, nat_key, bytes_key}
use qxchain.Frame.Layer.{storage_layer-keeps_ok}
use qxchain.Ai.{
  KiltPermissions, Config, Pallet, DidIdentifier, InferenceRequest, InferenceResult, AllowedModel,
  RequestStatus, Call, dispatch, run, Step, genesis,
}
use qxchain.Ai.Outcomes.{
  queue_of-answered, queue_of, requested, new_request, answered, new_result, submit_request_cases,
  submit_inference_cases,
}
use qxchain.Ai.Outcomes.Others.{
  updated, added, update_ai_worker_status_cases, add_allowed_model_cases,
}
use qxchain.Ai.Replay.{empty_book, replay, replay-snoc, Tells}

module _ {AccountId : Type 0} ⦃account_key : Key AccountId⦄ (F : Frame AccountId) where
  open F use {get, get-insert, get-empty, Origin}

  abbrev pub IsTold : Pallet F → Type 0
  IsTold s = Tells F s (replay s.events empty_book)

  requested-IsTold :
      (now : ℕ) (who target : AccountId) (prompt : List ℕ) (max_tokens : ℕ) (s : Pallet F)
      → IsTold s
      → IsTold (requested F now who target prompt max_tokens s)
  requested-IsTold now who target prompt max_tokens s v =
      let id = s.next_request_id in
      rw (replay-snoc, replay-snoc)
        (record {
          requests = λ j. ground (
            arith,
            v.requests j,
            get-insert s.inference_requests id (new_request F now who target prompt max_tokens) j,
          );
          results = v.results;
          queues = λ a. ground (
            arith,
            v.queues a,
            v.queues target,
            get-insert s.ai_worker_queues target (queue_of F s target ++ id ∷ []) a,
          );
          online = v.online;
          models = v.models;
        })

  answered-IsTold :
      (now : ℕ) (who : AccountId) (did : DidIdentifier) (id : ℕ) (output : List ℕ)
      (request : InferenceRequest AccountId) (s : Pallet F)
      → get s.inference_requests id ≡ some request
      → IsTold s
      → IsTold (answered F now who did id output request s)
  answered-IsTold now who did id output request s known v =
      let i = s.next_inference_id in
      rw (replay-snoc, replay-snoc)
        (record {
          requests = λ j. ground (
            arith,
            v.requests j,
            v.requests id,
            known,
            get-insert s.inference_requests id (record request { status = RequestStatus.completed })
                j,
          );
          results = λ j. ground (
            arith,
            v.results j,
            get-insert s.inference_results i (new_result F now who did id output) j,
          );
          queues = λ a. ground (
            arith,
            v.queues a,
            v.queues who,
            queue_of-answered F now who did id output request s a,
          );
          online = v.online;
          models = v.models;
        })

  updated-IsTold :
      (who : AccountId) (online : Bool) (s : Pallet F) → IsTold s → IsTold (updated F who online s)
  updated-IsTold who online s v = rw replay-snoc (record {
    requests = v.requests;
    results = v.results;
    queues = v.queues;
    online = λ a. ground (arith, v.online a, get-insert s.ai_worker_status who online a);
    models = v.models;
  })

  added-IsTold :
      (id : ℕ) (name hash : List ℕ) (s : Pallet F) → IsTold s → IsTold (added F id name hash s)
  added-IsTold id name hash s v =
      let model : AllowedModel = record { model_name = name; model_hash = hash; active = true } in
      rw replay-snoc (record {
        requests = v.requests;
        results = v.results;
        queues = v.queues;
        online = v.online;
        models = λ j. ground (arith, v.models j, get-insert s.allowed_models id model j);
      })

  dispatch-IsTold :
      (permissions : KiltPermissions AccountId) (config : Config) (now : ℕ) (o : Origin)
      (c : Call AccountId) (s : Pallet F)
      → IsTold s
      → IsTold (dispatch F permissions config now o c s).1
  unfolding dispatch
  dispatch-IsTold permissions config now o (Call.submit_request target prompt max_tokens) s v =
      storage_layer-keeps_ok F IsTold _ s v (λ a done.
        elim (submit_request_cases F permissions config now o target prompt max_tokens s) [
          | inl failed ↦ absurd (failed done)
          | inr (who, did, _, e, r) ↦ rw e (requested-IsTold now who target prompt max_tokens s v)
        ])
  dispatch-IsTold permissions config now o (Call.update_ai_worker_status online) s v =
      storage_layer-keeps_ok F IsTold _ s v (λ a done.
        elim (update_ai_worker_status_cases F permissions o online s) [
          | inl failed ↦ absurd (failed done)
          | inr (who, did, _, e, r) ↦ rw e (updated-IsTold who online s v)
        ])
  dispatch-IsTold permissions config now o (Call.submit_inference id output) s v =
      storage_layer-keeps_ok F IsTold _ s v (λ a done.
        elim (submit_inference_cases F permissions now o id output s) [
          | inl failed ↦ absurd (failed done)
          | inr (who, did, request, _, e, r) ↦
              rw e (answered-IsTold now who did id output request s r.known v)
        ])
  dispatch-IsTold permissions config now o (Call.add_allowed_model id name hash) s v =
      storage_layer-keeps_ok F IsTold _ s v (λ a done.
        elim (add_allowed_model_cases F o id name hash s) [
          | inl failed ↦ absurd (failed done)
          | inr (_, e, r) ↦ rw e (added-IsTold id name hash s v)
        ])

  run-IsTold :
      (config : Config) (cs : List (Step F)) (s : Pallet F) → IsTold s → IsTold (run F config cs s)
  unfolding run
  run-IsTold config [] s v = v
  run-IsTold config ((permissions, now, o, c) ∷ cs) s v =
      run-IsTold config cs (dispatch F permissions config now o c s).1
        (dispatch-IsTold permissions config now o c s v)

  -- On a new chain, after any history of calls, whoever makes them and however they end, the events
  -- that were deposited tell what the storage holds: replayed from nothing they give, for every id,
  -- customer, worker and status of the request and request, worker and DID of the result, for
  -- every worker its queue and whether it is online, and for every model its name.
  pub run-genesis-IsTold :
      (config : Config) (cs : List (Step F)) → IsTold (run F config cs (genesis F))
  unfolding genesis replay
  run-genesis-IsTold config cs = run-IsTold config cs (genesis F) (record {
    requests = λ id. ground (arith, get-empty {V = InferenceRequest AccountId} id);
    results = λ id. ground (arith, get-empty {V = InferenceResult AccountId} id);
    queues = λ a. ground (arith, get-empty {V = List ℕ} a);
    online = λ a. get-empty {V = Bool} a;
    models = λ id. ground (arith, get-empty {V = AllowedModel} id);
  })
