-- ===== src/Ai/Queues/Calls.antt =====
-- The queues and the requests of pallets/pallet-qx-ai/src/lib.rs under every call.
use qxchain.Prelude.{ℕ, ◌<◌, ◌≡◌, Bool, inl, inr, List, arith, u32_max}
use qxchain.Frame.{Frame, Key, nat_key, bytes_key}
use qxchain.Frame.Layer.{storage_layer-keeps, storage_layer-keeps_ok}
use qxchain.Ai.Ids.{Ascends-unique}
use qxchain.Ai.{
  KiltPermissions, Config, Pallet, update_ai_worker_status, add_allowed_model, Call, dispatch,
}
use qxchain.Ai.Outcomes.{queue_of, submit_request_cases, submit_inference_cases}
use qxchain.Ai.Queues.{IsQueued}
use qxchain.Ai.Queues.Requested.{requested-IsQueued}
use qxchain.Ai.Queues.Answered.{answered-IsQueued}

module _ {AccountId : Type 0} ⦃account_key : Key AccountId⦄ (F : Frame AccountId) where
  open F use {get, Origin}

  -- what the invariant of the queues speaks of
  record SameQueues (s t : Pallet F) : Type 0 where
    queues : t.ai_worker_queues ≡ s.ai_worker_queues
    requests : t.inference_requests ≡ s.inference_requests
    mapping : t.request_worker_map ≡ s.request_worker_map
    next : t.next_request_id ≡ s.next_request_id

  SameQueues-IsQueued :
      (config : Config) (s t : Pallet F)
      → SameQueues s t
      → IsQueued F config s
      → IsQueued F config t
  SameQueues-IsQueued config s t e v = record {
    bounded = λ a. rw e.queues (v.bounded a);
    ascending = λ a. rw e.queues (v.ascending a);
    sound = λ a i h. rw e.requests (v.sound a i (rw e.queues at h));
    complete = λ a i h. rw e.queues (v.complete a i (rw e.requests at h));
    fresh = λ i r h. rw e.next (v.fresh i r (rw e.requests at h));
    mapped = λ i. rw (e.mapping, e.requests) (v.mapped i);
  }

  module _ (permissions : KiltPermissions AccountId) (config : Config) (now : ℕ) (o : Origin) where
    update_ai_worker_status-SameQueues :
        (online : Bool) (s : Pallet F)
        → SameQueues s (update_ai_worker_status F permissions o online s).1
    unfolding update_ai_worker_status
    update_ai_worker_status-SameQueues online s = ground arith

    add_allowed_model-SameQueues :
        (id : ℕ) (name hash : List ℕ) (s : Pallet F)
        → SameQueues s (add_allowed_model F o id name hash s).1
    unfolding add_allowed_model
    add_allowed_model-SameQueues id name hash s = ground arith

    -- Every call keeps the queues in step with the requests, as long as request ids have not
    -- reached the last `u32`: no queue is longer than its bound, each holds in ascending order the
    -- ids of the requests that wait for its worker and no others, every id is below the next one,
    -- and the map from requests to workers agrees with the requests.
    pub dispatch-IsQueued :
        (c : Call AccountId) (s : Pallet F)
        → IsQueued F config s
        → s.next_request_id < u32_max
        → IsQueued F config (dispatch F permissions config now o c s).1
    unfolding dispatch
    dispatch-IsQueued (Call.submit_request target prompt max_tokens) s v h =
        storage_layer-keeps_ok F (IsQueued F config) _ s v (λ a succeeded.
          elim (submit_request_cases F permissions config now o target prompt max_tokens s) [
            | inl failed ↦ absurd (failed succeeded)
            | inr (who, did, done, e, r) ↦
                rw e (requested-IsQueued F config now who target prompt max_tokens s v r.room h)
          ])
    dispatch-IsQueued (Call.update_ai_worker_status online) s v h =
        storage_layer-keeps F (IsQueued F config) _ s v
          (SameQueues-IsQueued config s _ (update_ai_worker_status-SameQueues online s) v)
    dispatch-IsQueued (Call.submit_inference id output) s v h =
        storage_layer-keeps_ok F (IsQueued F config) _ s v (λ a done.
          elim (submit_inference_cases F permissions now o id output s) [
            | inl failed ↦ absurd (failed done)
            | inr (who, did, request, _, e, r) ↦
                rw e (answered-IsQueued F config now who did id output request s v r.known r.own)
          ])
    dispatch-IsQueued (Call.add_allowed_model id name hash) s v h =
        storage_layer-keeps F (IsQueued F config) _ s v
          (SameQueues-IsQueued config s _ (add_allowed_model-SameQueues id name hash s) v)

  -- The requests determine the queues: two storages whose queues are in step, under whatever
  -- bounds, and that hold the same requests have the same queue for every worker.
  queue_of_unique :
      (c d : Config) (s t : Pallet F) (a : AccountId)
      → IsQueued F c s
      → IsQueued F d t
      → s.inference_requests ≡ t.inference_requests
      → queue_of F s a ≡ queue_of F t a
  queue_of_unique c d s t a v w e =
      Ascends-unique (queue_of F s a) (queue_of F t a) (v.ascending a) (w.ascending a)
        (λ i h. w.complete a i (rw (← e) (v.sound a i h)))
        (λ i h. v.complete a i (rw e (w.sound a i h)))
