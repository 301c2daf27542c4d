-- ===== src/Ai/History.antt =====
-- Histories of calls of pallets/pallet-qx-ai/src/lib.rs: what holds after any of them.
pub mod Runs
use qxchain.Prelude.{ℕ, suc, ◌+◌, ◌<◌, ◌≤◌, ◌≡◌, refl, inl, inr, Bool, some, List, arith, u32_max}
use qxchain.Frame.{Frame, Key, nat_key, bytes_key}
use qxchain.Frame.Layer.{storage_layer-keeps, storage_layer-keeps_ok}
use qxchain.Ai.{
  KiltPermissions, Config, Pallet, DidIdentifier, InferenceRequest, RequestStatus, submit_request,
  submit_inference, update_ai_worker_status, add_allowed_model, Call, dispatch,
}
use qxchain.Ai.Outcomes.{requested, answered, submit_request_cases, submit_inference_cases}
use qxchain.Ai.Records.{
  IsRecorded, IsCompleted, requested-IsRecorded, answered-IsRecorded, keeps_status, request_at,
}

module _ {AccountId : Type 0} ⦃account_key : Key AccountId⦄ (F : Frame AccountId) where
  open F use {get, Origin}

  -- Both counters are `n` calls short of the last `u32` at least.
  pub record HasIds (n : ℕ) (s : Pallet F) : Type 0 where
    pub requests : s.next_request_id + n ≤ u32_max
    pub inferences : s.next_inference_id + n ≤ u32_max

  -- what the two other calls leave alone
  record SameRecords (s t : Pallet F) : Type 0 where
    requests : t.inference_requests ≡ s.inference_requests
    results : t.inference_results ≡ s.inference_results
    next_request : t.next_request_id ≡ s.next_request_id
    next_inference : t.next_inference_id ≡ s.next_inference_id

  SameRecords-IsRecorded : (s t : Pallet F) → SameRecords s t → IsRecorded F s → IsRecorded F t
  SameRecords-IsRecorded s t e v = record {
    fresh = λ i r h. rw e.next_request (v.fresh i r (rw e.requests at h));
    progress = λ i r h. v.progress i r (rw e.requests at h);
    numbered = λ i x h. rw e.next_inference (v.numbered i x (rw e.results at h));
    recorded = λ i x h. rw e.requests (v.recorded i x (rw e.results at h));
    single = λ i j x y h k. v.single i j x y (rw e.results at h) (rw e.results at k);
    fulfilled = λ i a h. rw e.results (v.fulfilled i a (rw e.requests at h));
  }

  module _ (permissions : KiltPermissions AccountId) (config : Config) (now : ℕ) (o : Origin) where
    update_ai_worker_status-SameRecords :
        (online : Bool) (s : Pallet F)
        → SameRecords s (update_ai_worker_status F permissions o online s).1
    unfolding update_ai_worker_status
    update_ai_worker_status-SameRecords online s = ground arith

    add_allowed_model-SameRecords :
        (id : ℕ) (name hash : List ℕ) (s : Pallet F)
        → SameRecords s (add_allowed_model F o id name hash s).1
    unfolding add_allowed_model
    add_allowed_model-SameRecords id name hash s = ground arith

  -- What one call may do to the records, over a storage that is well-formed and has ids left.
  pub record Advances (n : ℕ) (s t : Pallet F) : Type 0 where
    pub valid : IsRecorded F t
    pub ids : HasIds n t
    pub completed : (a : AccountId) (id : ℕ) → IsCompleted F s a id → IsCompleted F t a id

  same-Advances :
      (n : ℕ) (s t : Pallet F)
      → SameRecords s t
      → IsRecorded F s
      → HasIds (suc n) s
      → Advances n s t
  same-Advances n s t e v h = record {
    valid = SameRecords-IsRecorded s t e v;
    ids = record { requests = ground (arith, e, h); inferences = ground (arith, e, h) };
    completed = λ a id c. rw e.requests c;
  }

  stays-Advances : (n : ℕ) (s : Pallet F) → IsRecorded F s → HasIds (suc n) s → Advances n s s
  stays-Advances n s v h =
      same-Advances n s s
        (record { requests = refl; results = refl; next_request = refl; next_inference = refl }) v h

  requested-Advances :
      (n now : ℕ) (who target : AccountId) (prompt : List ℕ) (max_tokens : ℕ) (s : Pallet F)
      → IsRecorded F s
      → HasIds (suc n) s
      → Advances n s (requested F now who target prompt max_tokens s)
  requested-Advances n now who target prompt max_tokens s v h =
      let unwrapped : s.next_request_id < u32_max = omega (arith, h.requests) in
      record {
        valid = requested-IsRecorded F now who target prompt max_tokens s v unwrapped;
        ids = record {
          requests = omega (arith, h.requests);
          inferences = omega (arith, h.inferences);
        };
        completed = λ a id.
            keeps_status F now who target prompt max_tokens s v unwrapped id a
              RequestStatus.completed;
      }

  answered-Advances :
      (n now : ℕ) (who : AccountId) (did : DidIdentifier) (id : ℕ) (output : List ℕ)
      (request : InferenceRequest AccountId) (s : Pallet F)
      → get s.inference_requests id ≡ some request
      → request.target_worker ≡ who
      → request.status ≡ RequestStatus.queued
      → IsRecorded F s
      → HasIds (suc n) s
      → Advances n s (answered F now who did id output request s)
  answered-Advances n now who did id output request s known own waiting v h =
      let unwrapped : s.next_inference_id < u32_max = omega (arith, h.inferences) in
      record {
        valid = answered-IsRecorded F now who did id output request s v known own waiting unwrapped;
        ids = record {
          requests = omega (arith, h.requests);
          inferences = omega (arith, h.inferences);
        };
        completed = λ a j c. elim (nat_key.dec id j) [
          | yes p ↦ absurd (ground (arith, c, p, known, waiting))
          | no p ↦
              rw (request_at F now who did id output request s v known own waiting unwrapped j p) c
        ];
      }

  pub dispatch-Advances :
      (n : ℕ) (permissions : KiltPermissions AccountId) (config : Config) (now : ℕ) (o : Origin)
      (c : Call AccountId) (s : Pallet F)
      → IsRecorded F s
      → HasIds (suc n) s
      → Advances n s (dispatch F permissions config now o c s).1
  unfolding dispatch
  dispatch-Advances n permissions config now o (Call.submit_request target prompt max_tokens) s v
        h =
      storage_layer-keeps_ok F (Advances n s) _ s (stays-Advances n s v h) (λ a done.
        elim (submit_request_cases F permissions config now o target prompt max_tokens s) [
          | inl failed ↦ absurd (failed done)
          | inr (who, did, _, e, r) ↦
              rw e (requested-Advances n now who target prompt max_tokens s v h)
        ])
  dispatch-Advances n permissions config now o (Call.update_ai_worker_status online) s v h =
      storage_layer-keeps F (Advances n s) _ s (stays-Advances n s v h) (
        same-Advances n s _ (update_ai_worker_status-SameRecords permissions config now o online s)
          v h)
  dispatch-Advances n permissions config now o (Call.submit_inference id output) s v h =
      storage_layer-keeps_ok F (Advances n s) _ s (stays-Advances n s v h) (λ a done.
        elim (submit_inference_cases F permissions now o id output s) [
          | inl failed ↦ absurd (failed done)
          | inr (who, did, request, _, e, r) ↦
              rw e (answered-Advances n now who did id output request s r.known r.own r.waiting v h)
        ])
  dispatch-Advances n permissions config now o (Call.add_allowed_model id name hash) s v h =
      storage_layer-keeps F (Advances n s) _ s (stays-Advances n s v h) (
        same-Advances n s _ (add_allowed_model-SameRecords permissions config now o id name hash s)
          v h)
