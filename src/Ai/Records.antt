-- ===== src/Ai/Records.antt =====
-- The results of pallets/pallet-qx-ai/src/lib.rs against the requests.
use qxchain.Prelude.{ℕ, ◌<◌, ◌≡◌, ◌≢◌, ◌⊎◌, inl, inr, some, List, arith, u32_max, sym, Option-cases}
use qxchain.Frame.{Frame, Key, nat_key, bytes_key}
use qxchain.Frame.Maps.{get-insert_self, get-insert_ne}
use qxchain.Ai.{Pallet, DidIdentifier, InferenceRequest, InferenceResult, RequestStatus}
use qxchain.Ai.Outcomes.{requested, answered, new_request, new_result}
use qxchain.Ai.Queues.{HasStatus}

module _ {AccountId : Type 0} ⦃account_key : Key AccountId⦄ (F : Frame AccountId) where
  open F use {get, insert, get-insert, Origin}

  abbrev pub IsCompleted : Pallet F → AccountId → ℕ → Type 0
  IsCompleted s a id = HasStatus (get s.inference_requests id) a RequestStatus.completed

  pub record IsRecorded (s : Pallet F) : Type 0 where
    pub fresh :
        (id : ℕ) (r : InferenceRequest AccountId)
        → get s.inference_requests id ≡ some r
        → id < s.next_request_id
    pub progress :
        (id : ℕ) (r : InferenceRequest AccountId)
        → get s.inference_requests id ≡ some r
        → (r.status ≡ RequestStatus.queued) ⊎ (r.status ≡ RequestStatus.completed)
    pub numbered :
        (i : ℕ) (x : InferenceResult AccountId)
        → get s.inference_results i ≡ some x
        → i < s.next_inference_id
    pub recorded :
        (i : ℕ) (x : InferenceResult AccountId)
        → get s.inference_results i ≡ some x
        → IsCompleted s x.worker x.request_id
    pub single :
        (i j : ℕ) (x y : InferenceResult AccountId)
        → get s.inference_results i ≡ some x
        → get s.inference_results j ≡ some y
        → x.request_id ≡ y.request_id
        → i ≡ j
    pub fulfilled :
        (id : ℕ) (a : AccountId)
        → IsCompleted s a id
        → (i : ℕ) × (x : InferenceResult AccountId) × (get s.inference_results i ≡ some x)
          × (x.request_id ≡ id)
          × (x.worker ≡ a)

  module _ (now : ℕ) (who target : AccountId) (prompt : List ℕ) (max_tokens : ℕ) (s : Pallet F)
      (v : IsRecorded s) (unwrapped : s.next_request_id < u32_max) where
    abbrev pub t : Pallet F
    t = requested F now who target prompt max_tokens s

    stored :
        (j : ℕ) → s.next_request_id ≢ j → get t.inference_requests j ≡ get s.inference_requests j
    stored =
        get-insert_ne F s.inference_requests s.next_request_id
          (new_request F now who target prompt max_tokens)

    new :
        get t.inference_requests s.next_request_id
        ≡ some (new_request F now who target prompt max_tokens)
    new =
        get-insert_self F s.inference_requests s.next_request_id
          (new_request F now who target prompt max_tokens)

    -- A request that is there is not overwritten.
    pub keeps_status :
        (j : ℕ) (a : AccountId) (status : RequestStatus)
        → HasStatus (get s.inference_requests j) a status
        → HasStatus (get t.inference_requests j) a status
    keeps_status j a status h = elim (Option-cases (get s.inference_requests j)) [
      | inl e ↦ absurd (rw e at h)
      | inr (r, e) ↦
          let ne : s.next_request_id ≢ j = λ p. absurd (omega (arith, v.fresh j r e, p)) in
          rw (stored j ne) h
    ]

    pub requested-IsRecorded : IsRecorded t
    requested-IsRecorded = record {
      fresh = λ j r e. ground (arith, stored j, v.fresh j r, unwrapped);
      progress = λ j r e. ground (arith, stored j, new, v.progress j r);
      numbered = v.numbered;
      recorded =
          λ i x e. keeps_status x.request_id x.worker RequestStatus.completed (v.recorded i x e);
      single = v.single;
      fulfilled = λ j a h. elim (nat_key.dec s.next_request_id j) [
        | yes p ↦ absurd (ground (arith, new, p, h))
        | no p ↦ v.fulfilled j a (rw (stored j p) at h)
      ];
    }

  module _ (now : ℕ) (who : AccountId) (did : DidIdentifier) (id : ℕ) (output : List ℕ)
      (request : InferenceRequest AccountId) (s : Pallet F) (v : IsRecorded s)
      (known : get s.inference_requests id ≡ some request) (own : request.target_worker ≡ who)
      (waiting : request.status ≡ RequestStatus.queued)
      (unwrapped : s.next_inference_id < u32_max) where
    abbrev pub u : Pallet F
    u = answered F now who did id output request s

    pub request_at : (j : ℕ) → id ≢ j → get u.inference_requests j ≡ get s.inference_requests j
    request_at =
        get-insert_ne F s.inference_requests id
          (record request { status = RequestStatus.completed })

    pub completed_at :
        get u.inference_requests id ≡ some (record request { status = RequestStatus.completed })
    completed_at =
        get-insert_self F s.inference_requests id
          (record request { status = RequestStatus.completed })

    result_at :
        (i : ℕ) → s.next_inference_id ≢ i → get u.inference_results i ≡ get s.inference_results i
    result_at =
        get-insert_ne F s.inference_results s.next_inference_id (new_result F now who did id output)

    new_at : get u.inference_results s.next_inference_id ≡ some (new_result F now who did id output)
    new_at =
        get-insert_self F s.inference_results s.next_inference_id
          (new_result F now who did id output)

    -- No result names the request before it is answered.
    unanswered :
        (i : ℕ) (x : InferenceResult AccountId)
        → get s.inference_results i ≡ some x
        → x.request_id ≢ id
    unanswered i x e p = ground (arith, v.recorded i x e, p, known, waiting)

    -- A result after the call is an old one, or the new one.
    results_of :
        (i : ℕ) (x : InferenceResult AccountId)
        → get u.inference_results i ≡ some x
        → (get s.inference_results i ≡ some x)
          ⊎ ((i ≡ s.next_inference_id) × (x ≡ new_result F now who did id output))
    results_of i x e = elim (nat_key.dec s.next_inference_id i) [
      | yes p ↦ inr (ground (arith, p, new_at, e))
      | no p ↦ inl (rw (result_at i p) at e)
    ]

    recorded-answered :
        (i : ℕ) (x : InferenceResult AccountId)
        → get u.inference_results i ≡ some x
        → IsCompleted u x.worker x.request_id
    recorded-answered i x e = elim (results_of i x e) [
      | inl old ↦
          let ne : id ≢ x.request_id = λ p. unanswered i x old (sym p) in
          rw (request_at x.request_id ne) (v.recorded i x old)
      | inr (_, q) ↦ ground (arith, q, completed_at, own)
    ]

    single-answered :
        (i j : ℕ) (x y : InferenceResult AccountId)
        → get u.inference_results i ≡ some x
        → get u.inference_results j ≡ some y
        → x.request_id ≡ y.request_id
        → i ≡ j
    single-answered i j x y e f p = ground (
      arith,
      results_of i x e,
      results_of j y f,
      v.single i j x y,
      unanswered i x,
      unanswered j y,
    )

    fulfilled-answered :
        (j : ℕ) (a : AccountId)
        → IsCompleted u a j
        → (i : ℕ) × (x : InferenceResult AccountId) × (get u.inference_results i ≡ some x)
          × (x.request_id ≡ j)
          × (x.worker ≡ a)
    fulfilled-answered j a h = elim (nat_key.dec id j) [
      | yes p ↦ (
        s.next_inference_id,
        new_result F now who did id output,
        new_at,
        p,
        ground (arith, h, p, completed_at, own),
      )
      | no p ↦
          let (i, x, e, q, w) = v.fulfilled j a (rw (request_at j p) at h) in
          let ne : s.next_inference_id ≢ i = λ z. absurd (omega (arith, v.numbered i x e, z)) in
          (i, x, rw (result_at i ne) e, q, w)
    ]

    pub answered-IsRecorded : IsRecorded u
    answered-IsRecorded = record {
      fresh = λ j r e. ground (arith, request_at j, v.fresh j r, v.fresh id request known);
      progress = λ j r e. ground (arith, request_at j, completed_at, v.progress j r);
      numbered = λ i x e. ground (arith, results_of i x e, v.numbered i x, unwrapped);
      recorded = recorded-answered;
      single = single-answered;
      fulfilled = fulfilled-answered;
    }
