-- ===== src/Ai/Lifecycle.antt =====
-- The life of a request in pallets/pallet-qx-ai/src/lib.rs: when it is accepted, when it is
-- answered, and what is left of it.
use qxchain.Prelude.{
  ℕ, Bool, ◌<◌, ◌≡◌, refl, ◌↔◌, inl, inr, ap, List, arith, Elem, u32_max, some, if_pos, sym, ◌∙◌,
  length,
}
use qxchain.Errors.{DispatchError}
use qxchain.Frame.{Frame, Key, nat_key, bytes_key, ok, err}
use qxchain.Frame.Layer.{storage_layer_result, storage_layer_ok, storage_layer_failed}
use qxchain.Frame.Maps.{get-insert_self}
use qxchain.Ai.Ids.{without-snoc}
use qxchain.Ai.{
  KiltPermissions, Config, Pallet, DidIdentifier, InferenceRequest, RequestStatus, submit_request,
  submit_inference, update_ai_worker_status, Call, dispatch, get_inference_result,
}
use qxchain.Ai.Outcomes.{
  queue_of-answered, queue_of, requested, answered, new_request, new_result, Requests, Answers,
  IsCredentialed, submit_request_cases, submit_inference_cases, submit_request_ok,
  submit_inference_ok,
}
use qxchain.Ai.Outcomes.Others.{Updates, update_ai_worker_status_ok, update_ai_worker_status_cases}
use qxchain.Ai.Queues.{IsQueued}
use qxchain.Ai.Queues.Requested.{queue_of-requested, request-requested, below_next}

module _ {AccountId : Type 0} ⦃account_key : Key AccountId⦄ (F : Frame AccountId)
    (permissions : KiltPermissions AccountId) (config : Config) where
  open F use {get, insert, get-insert, Origin, ensure_signed}

  -- `submit_request` succeeds exactly when it is signed, the worker has a DID whose credential
  -- verifies, and the queue of the worker has room.
  pub submit_request-ok_iff :
      (now : ℕ) (o : Origin) (target : AccountId) (prompt : List ℕ) (max_tokens : ℕ) (s : Pallet F)
      → ((dispatch F permissions config now o (Call.submit_request target prompt max_tokens) s).0
          ≡ ok tt)
        ↔ ((who : AccountId) × (did : DidIdentifier) × Requests F permissions config o target s who
              did)
  unfolding dispatch
  submit_request-ok_iff now o target prompt max_tokens s =
      let m = submit_request F permissions config now o target prompt max_tokens in
      (
        λ h. elim (submit_request_cases F permissions config now o target prompt max_tokens s) [
          | inl failed ↦ absurd (failed (sym (storage_layer_result F m s) ∙ h))
          | inr (who, did, _, _, r) ↦ (who, did, r)
        ],
        λ (who, did, r).
            storage_layer_result F m s
            ∙ ap (λ x. x.0)
                (submit_request_ok F permissions config now o target prompt max_tokens s who did r),
      )

  -- `submit_inference` succeeds exactly when it is signed by an account whose own credential
  -- verifies, and names a request to that account that still waits.
  pub submit_inference-ok_iff :
      (now : ℕ) (o : Origin) (id : ℕ) (output : List ℕ) (s : Pallet F)
      → ((dispatch F permissions config now o (Call.submit_inference id output) s).0 ≡ ok tt) ↔ (
          (who : AccountId) × (did : DidIdentifier) × (request : InferenceRequest AccountId)
          × Answers F permissions o id s who did request)
  unfolding dispatch
  submit_inference-ok_iff now o id output s =
      let m = submit_inference F permissions now o id output in
      (
        λ h. elim (submit_inference_cases F permissions now o id output s) [
          | inl failed ↦ absurd (failed (sym (storage_layer_result F m s) ∙ h))
          | inr (who, did, request, _, _, r) ↦ (who, did, request, r)
        ],
        λ (who, did, request, r).
            storage_layer_result F m s
            ∙ ap (λ x. x.0) (submit_inference_ok F permissions now o id output s who did request r),
      )

  -- `update_ai_worker_status` succeeds exactly when it is signed by an account whose own credential
  -- verifies.
  pub update_ai_worker_status-ok_iff :
      (now : ℕ) (o : Origin) (online : Bool) (s : Pallet F)
      → ((dispatch F permissions config now o (Call.update_ai_worker_status online) s).0 ≡ ok tt)
        ↔ ((who : AccountId) × (did : DidIdentifier) × Updates F permissions o who did)
  unfolding dispatch
  update_ai_worker_status-ok_iff now o online s =
      let m = update_ai_worker_status F permissions o online in
      (
        λ h. elim (update_ai_worker_status_cases F permissions o online s) [
          | inl failed ↦ absurd (failed (sym (storage_layer_result F m s) ∙ h))
          | inr (who, did, _, _, r) ↦ (who, did, r)
        ],
        λ (who, did, r).
            storage_layer_result F m s
            ∙ ap (λ x. x.0) (update_ai_worker_status_ok F permissions o online s who did r),
      )

  -- A call that fails leaves the storage as it was, although the body of `submit_request` has
  -- written the request by the time it finds the queue full.
  dispatch-err :
      (now : ℕ) (o : Origin) (c : Call AccountId) (s : Pallet F) (e : DispatchError)
      → (dispatch F permissions config now o c s).0 ≡ err e
      → (dispatch F permissions config now o c s).1 ≡ s
  unfolding dispatch
  dispatch-err now o (Call.submit_request target prompt max_tokens) s e h =
      storage_layer_failed F (submit_request F permissions config now o target prompt max_tokens) s
        e h
  dispatch-err now o (Call.update_ai_worker_status online) s e h = storage_layer_failed F _ s e h
  dispatch-err now o (Call.submit_inference id output) s e h = storage_layer_failed F _ s e h
  dispatch-err now o (Call.add_allowed_model id name hash) s e h = storage_layer_failed F _ s e h

  -- A queue to which the next id is pushed, and from which it is then taken out.
  queue_of-answered-requested :
      (now later : ℕ) (who target : AccountId) (did : DidIdentifier) (prompt output : List ℕ)
      (max_tokens : ℕ) (s : Pallet F) (a : AccountId)
      → IsQueued F config s
      → length (queue_of F s target) < config.max_queue_size
      → s.next_request_id < u32_max
      → let t = requested F now who target prompt max_tokens s in
        let request = new_request F now who target prompt max_tokens in
        queue_of F (answered F later target did s.next_request_id output request t) a
        ≡ queue_of F s a
  queue_of-answered-requested now later who target did prompt output max_tokens s a v room h =
      let id = s.next_request_id in
      let t = requested F now who target prompt max_tokens s in
      let pushed = queue_of-requested F config now who target prompt max_tokens s v room h in
      let stored = request-requested F config now who target prompt max_tokens s v room h id in
      let old = below_next F config now who target prompt max_tokens s v room h target id in
      let absent : ¬ Elem id (queue_of F s target) = λ m. absurd (omega (arith, old m)) in
      ground (
        arith,
        pushed a,
        pushed target,
        without-snoc id (queue_of F s target) absent,
        queue_of-answered F later target did id output
            (new_request F now who target prompt max_tokens) t a,
      )

  -- A request that is accepted in a well-formed storage, before request ids run out, and then
  -- answered by its worker, whose credential verifies at that time: the answer is accepted, stored
  -- under the next inference id with the DID of the worker and the output, the request is
  -- completed, and every queue is what it was before the request.
  pub submit_inference-submit_request :
      (permissions' : KiltPermissions AccountId) (now later : ℕ) (o o' : Origin)
      (target : AccountId) (prompt output : List ℕ) (max_tokens : ℕ) (s : Pallet F)
      (who : AccountId) (did did' : DidIdentifier)
      → IsQueued F config s
      → s.next_request_id < u32_max
      → Requests F permissions config o target s who did
      → ensure_signed o' ≡ some target
      → IsCredentialed F permissions' target did'
      → let id = s.next_request_id in
        let t =
          (dispatch F permissions config now o
            (Call.submit_request target prompt max_tokens)
            s).1 in
        let (r, u) = dispatch F permissions' config later o' (Call.submit_inference id output) t in
        (r ≡ ok tt)
        × (get_inference_result F u s.next_inference_id
            ≡ some (new_result F later target did' id output))
        × (get u.inference_requests id
            ≡ some (record (new_request F now who target prompt max_tokens) {
              status = RequestStatus.completed;
            }))
        × ((a : AccountId) → queue_of F u a ≡ queue_of F s a)
  unfolding dispatch get_inference_result
  submit_inference-submit_request permissions' now later o o' target prompt output max_tokens s who
        did did' v h r signer credential =
      let id = s.next_request_id in
      let request = new_request F now who target prompt max_tokens in
      let t = requested F now who target prompt max_tokens s in
      let u = answered F later target did' id output request t in
      let stored : get t.inference_requests id ≡ some request = rw (
        request-requested F config now who target prompt max_tokens s v r.room h id,
        if_pos _ refl,
      ) in
      let c : Answers F permissions' o' id t target did' request = record {
        signer = signer;
        credential = credential;
        known = stored;
        own = refl;
        waiting = refl;
      } in
      let first =
        submit_request_ok F permissions config now o target prompt max_tokens s who did r in
      let second = submit_inference_ok F permissions' later o' id output t target did' request c in
      let e =
        storage_layer_ok F (submit_request F permissions config now o target prompt max_tokens) s tt
          (ap (λ x. x.0) first)
        ∙ first in
      let e' =
        storage_layer_ok F (submit_inference F permissions' later o' id output) t tt
          (ap (λ x. x.0) second)
        ∙ second in
      rw (e, e')
        (
          refl,
          get-insert_self F s.inference_results s.next_inference_id
              (new_result F later target did' id output),
          get-insert_self F t.inference_requests id
              (record request { status = RequestStatus.completed }),
          λ a.
              queue_of-answered-requested now later who target did' prompt output max_tokens s a v
                r.room h,
        )
