-- ===== src/Ai/Outcomes.antt =====
-- What the calls of pallets/pallet-qx-ai/src/lib.rs do, by how they end: the conditions under which
-- a call succeeds, and the storage that it then leaves.
pub mod Others
use qxchain.Prelude.{
  ℕ, ◌<◌, ◌≡◌, ap, ◌≢◌, ◌⊎◌, inl, inr, some, List, [], ◌∷◌, ◌++◌, arith, length, true, wrapping_add,
  saturated_into, Option-cases, ite,
}
use mathlib.Core.Option
use qxchain.Frame.{Frame, Key, nat_key, bytes_key, ok, Result-cases}
use qxchain.Ai.Ids.{without}
use qxchain.Ai.{
  DidIdentifier, KiltPermissions, Config, Pallet, InferenceRequest, InferenceResult,
  InferenceStatus, RequestStatus, write_back, submit_request, submit_inference, request_submitted,
  request_assigned, inference_submitted, request_completed,
}

module _ {AccountId : Type 0} ⦃account_key : Key AccountId⦄ (F : Frame AccountId) where
  open F use {
    get, insert, remove, get-insert, get-remove, ensure_signed, ensure_root, try_push, try_push_lem,
    Origin,
  }

  -- the ids that wait for a worker; a worker with no queue has none
  abbrev pub queue_of : Pallet F → AccountId → List ℕ
  queue_of s a = Option.get_or (get s.ai_worker_queues a) []

  abbrev pub new_request : ℕ → AccountId → AccountId → List ℕ → ℕ → InferenceRequest AccountId
  new_request now who target prompt max_tokens = record {
    customer = who;
    target_worker = target;
    prompt = prompt;
    max_tokens = max_tokens;
    status = RequestStatus.queued;
    created_at = saturated_into now;
  }

  -- the storage after a successful `submit_request`
  abbrev pub requested : ℕ → AccountId → AccountId → List ℕ → ℕ → Pallet F → Pallet F
  requested now who target prompt max_tokens s =
      let id = s.next_request_id in
      record s {
        next_request_id = wrapping_add id 1;
        inference_requests =
            insert s.inference_requests id (new_request now who target prompt max_tokens);
        request_worker_map = insert s.request_worker_map id target;
        ai_worker_queues = insert s.ai_worker_queues target (queue_of s target ++ id ∷ []);
        events =
            (s.events ++ request_submitted id who target ∷ []) ++ request_assigned id target ∷ [];
      }

  abbrev pub new_result : ℕ → AccountId → DidIdentifier → ℕ → List ℕ → InferenceResult AccountId
  new_result now who did id output = record {
    request_id = id;
    worker = who;
    worker_did = did;
    output = output;
    status = InferenceStatus.completed;
    submitted_at = saturated_into now;
  }

  -- the storage after a successful `submit_inference`
  abbrev pub answered :
      ℕ → AccountId → DidIdentifier → ℕ → List ℕ → InferenceRequest AccountId → Pallet F → Pallet F
  answered now who did id output request s =
      let inference_id = s.next_inference_id in
      record s {
        next_inference_id = wrapping_add inference_id 1;
        inference_results =
            insert s.inference_results inference_id (new_result now who did id output);
        inference_requests =
            insert s.inference_requests id (record request { status = RequestStatus.completed });
        ai_worker_queues =
            write_back F s.ai_worker_queues who
              (Option.map (without id) (get s.ai_worker_queues who));
        events =
            (s.events ++ inference_submitted inference_id id who did ∷ [])
            ++ request_completed id inference_id ∷ [];
      }

  pub queue_of-answered :
      (now : ℕ) (who : AccountId) (did : DidIdentifier) (id : ℕ) (output : List ℕ)
      (request : InferenceRequest AccountId) (s : Pallet F) (a : AccountId)
      → queue_of (answered now who did id output request s) a
        ≡ ite (account_key.dec who a) (without id (queue_of s who)) (queue_of s a)
  queue_of-answered now who did id output request s a =
      elim (Option-cases (get s.ai_worker_queues who)) [
        | inl e ↦ ground (arith, e, get-remove s.ai_worker_queues who a)
        | inr (q, e) ↦ ground (arith, e, get-insert s.ai_worker_queues who (without id q) a)
      ]

  module _ (permissions : KiltPermissions AccountId) where
    open permissions use {verify_worker_credential, get_worker_did}

    -- the worker has a DID whose credential verifies
    pub record IsCredentialed (worker : AccountId) (did : DidIdentifier) : Type 0 where
      pub has_did : get_worker_did worker ≡ ok did
      pub verifies : verify_worker_credential did ≡ ok true

    pub record Requests (config : Config) (o : Origin) (target : AccountId) (s : Pallet F)
        (who : AccountId) (did : DidIdentifier) : Type 0 where
      pub signer : ensure_signed o ≡ some who
      pub credential : IsCredentialed target did
      pub room : length (queue_of s target) < config.max_queue_size

    pub submit_request_cases :
        (config : Config) (now : ℕ) (o : Origin) (target : AccountId) (prompt : List ℕ)
        (max_tokens : ℕ) (s : Pallet F)
        → let (r, t) = submit_request F permissions config now o target prompt max_tokens s in
          (r ≢ ok tt)
          ⊎ ((who : AccountId) × (did : DidIdentifier) × (r ≡ ok tt)
              × (t ≡ requested now who target prompt max_tokens s)
              × Requests config o target s who did)
    unfolding submit_request
    submit_request_cases config now o target prompt max_tokens s =
        ground (arith, try_push_lem config.max_queue_size (queue_of s target) s.next_request_id)

    pub submit_request_ok :
        (config : Config) (now : ℕ) (o : Origin) (target : AccountId) (prompt : List ℕ)
        (max_tokens : ℕ) (s : Pallet F) (who : AccountId) (did : DidIdentifier)
        → Requests config o target s who did
        → submit_request F permissions config now o target prompt max_tokens s
          ≡ (ok tt, requested now who target prompt max_tokens s)
    unfolding submit_request
    submit_request_ok config now o target prompt max_tokens s who did c =
        ground (arith, c, try_push_lem config.max_queue_size (queue_of s target) s.next_request_id)

    pub record Answers (o : Origin) (id : ℕ) (s : Pallet F) (who : AccountId) (did : DidIdentifier)
        (request : InferenceRequest AccountId) : Type 0 where
      pub signer : ensure_signed o ≡ some who
      pub credential : IsCredentialed who did
      pub known : get s.inference_requests id ≡ some request
      pub own : request.target_worker ≡ who
      pub waiting : request.status ≡ RequestStatus.queued

    pub submit_inference_ok :
        (now : ℕ) (o : Origin) (id : ℕ) (output : List ℕ) (s : Pallet F) (who : AccountId)
        (did : DidIdentifier) (request : InferenceRequest AccountId)
        → Answers o id s who did request
        → submit_inference F permissions now o id output s
          ≡ (ok tt, answered now who did id output request s)
    unfolding submit_inference
    submit_inference_ok now o id output s who did request c = ground (arith, c)

    submit_inference_needs :
        (now : ℕ) (o : Origin) (id : ℕ) (output : List ℕ) (s : Pallet F)
        → (submit_inference F permissions now o id output s).0 ≡ ok tt
        → (who : AccountId) × (did : DidIdentifier) × (request : InferenceRequest AccountId)
          × Answers o id s who did request
    unfolding submit_inference
    submit_inference_needs now o id output s h = elim (Option-cases (ensure_signed o)) [
      | inl e ↦ absurd (ground (arith, h, e))
      | inr (who, e) ↦ elim (Result-cases (get_worker_did who)) [
        | inl (x, n) ↦ absurd (ground (arith, h, e, n))
        | inr (did, d) ↦ elim (Option-cases (get s.inference_requests id)) [
          | inl n ↦ absurd (ground (arith, h, e, d, n))
          | inr (request, k) ↦ (who, did, request, ground (arith, h, e, d, k))
        ]
      ]
    ]

    pub submit_inference_cases :
        (now : ℕ) (o : Origin) (id : ℕ) (output : List ℕ) (s : Pallet F)
        → let (r, t) = submit_inference F permissions now o id output s in
          (r ≢ ok tt)
          ⊎ ((who : AccountId) × (did : DidIdentifier) × (request : InferenceRequest AccountId) × (r
                ≡ ok tt)
              × (t ≡ answered now who did id output request s)
              × Answers o id s who did request)
    submit_inference_cases now o id output s =
        elim (Result-cases (submit_inference F permissions now o id output s).0) [
          | inr (tt, h) ↦
              let (who, did, request, c) = submit_inference_needs now o id output s h in
              let e = submit_inference_ok now o id output s who did request c in
              inr (who, did, request, h, ap (λ x. x.1) e, c)
          | inl (e, h) ↦ inl (λ p. cc)
        ]
