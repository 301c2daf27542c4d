-- ===== src/Runtime/Dids.antt =====
-- The AI pallet's storage against the DIDs of the KILT pallet, in the runtime of
-- runtime/src/lib.rs.
use qxchain.Prelude.{ℕ, ◌≡◌, inl, inr, some, List, [], ◌∷◌, arith, Option-cases}
use qxchain.Frame.{Frame, Key, nat_key, bytes_key, ok}
use qxchain.Frame.Layer.{storage_layer-keeps_ok}
use qxchain.Currency.{Currency}
use qxchain.Kilt
use qxchain.Kilt.{DidIdentifier, generate_did}
use qxchain.Kilt.Invariant.{IsValid, dispatch-IsValid, genesis-IsValid}
use qxchain.Kilt.Access.{dispatch-HasDid}
use qxchain.Ai
use qxchain.Ai.{KiltPermissions, Config, InferenceRequest, InferenceResult, RequestStatus}
use qxchain.Ai.Outcomes.{
  requested, new_request, answered, new_result, submit_request_cases, submit_inference_cases,
}
use qxchain.Ai.Outcomes.Others.{update_ai_worker_status_cases, add_allowed_model_cases}
use qxchain.Runtime.{
  RuntimeCall, qx_kilt_permissions, qx_ai, qx_faucet, State, Calls, dispatch, run, genesis,
  kilt_config, ai_config, kilt_permissions_impl,
}

module _ {AccountId : Type 0} ⦃account_key : Key AccountId⦄ (F : Frame AccountId) where
  open F use {get, get-insert, get-empty, Origin}

  -- the account has the DID that its hash gives
  abbrev pub HasDid : Kilt.Pallet F → AccountId → Type 0
  HasDid k a = get k.account_to_did a ≡ some (generate_did F a)

  -- every request is to an account with a DID, and every result has the DID of its worker
  pub record IsLinked (k : Kilt.Pallet F) (p : Ai.Pallet F) : Type 0 where
    pub requests :
        (id : ℕ) (r : InferenceRequest AccountId)
        → get p.inference_requests id ≡ some r
        → HasDid k r.target_worker
    pub results :
        (i : ℕ) (x : InferenceResult AccountId)
        → get p.inference_results i ≡ some x
        → (x.worker_did ≡ generate_did F x.worker) × HasDid k x.worker

  get_worker_did-HasDid :
      (k : Kilt.Pallet F) (a : AccountId) (d : DidIdentifier)
      → IsValid F k
      → Kilt.get_worker_did F k a ≡ ok d
      → (d ≡ generate_did F a) × HasDid k a
  unfolding Kilt.get_worker_did
  get_worker_did-HasDid k a d v h = elim (Option-cases (get k.worker_dids a)) [
    | inl e ↦ absurd (ground (arith, h, e, v.reverse a))
    | inr (w, e) ↦
        let own = (v.workers a w e).own_did in
        (ground (arith, h, e, v.reverse a, own), ground (arith, e, v.reverse a, own))
  ]

  requested-IsLinked :
      (now : ℕ) (who target : AccountId) (prompt : List ℕ) (max_tokens : ℕ) (k : Kilt.Pallet F)
      (p : Ai.Pallet F)
      → HasDid k target
      → IsLinked k p
      → IsLinked k (requested F now who target prompt max_tokens p)
  requested-IsLinked now who target prompt max_tokens k p has l = record {
    requests = λ j r h. ground (
      arith,
      h,
      has,
      l.requests j r,
      get-insert p.inference_requests p.next_request_id
          (new_request F now who target prompt max_tokens) j,
    );
    results = l.results;
  }

  answered-IsLinked :
      (now : ℕ) (who : AccountId) (id : ℕ) (output : List ℕ) (request : InferenceRequest AccountId)
      (k : Kilt.Pallet F) (p : Ai.Pallet F)
      → HasDid k who
      → get p.inference_requests id ≡ some request
      → IsLinked k p
      → IsLinked k (answered F now who (generate_did F who) id output request p)
  answered-IsLinked now who id output request k p has known l = record {
    requests = λ j r h. ground (
      arith,
      h,
      l.requests j r,
      l.requests id request known,
      get-insert p.inference_requests id (record request { status = RequestStatus.completed }) j,
    );
    results = λ j x h. ground (
      arith,
      h,
      has,
      l.results j x,
      get-insert p.inference_results p.next_inference_id
          (new_result F now who (generate_did F who) id output) j,
    );
  }

module _ {AccountId : Type 0} ⦃account_key : Key AccountId⦄ (F : Frame AccountId)
    (C : Currency AccountId) (account_id32 : List ℕ → AccountId) where
  open F use {Origin, get-empty}
  open C use {Ledger}

  ai-IsLinked :
      (now : ℕ) (o : Origin) (c : Ai.Call AccountId) (s : State F C account_id32)
      → IsValid F s.kilt
      → IsLinked F s.kilt s.ai
      → IsLinked F s.kilt
          (Ai.dispatch F (kilt_permissions_impl F C account_id32 now s) ai_config now o c s.ai).1
  unfolding Ai.dispatch
  ai-IsLinked now o (Ai.Call.submit_request target prompt max_tokens) s v l =
      let permissions = kilt_permissions_impl F C account_id32 now s in
      storage_layer-keeps_ok F (IsLinked F s.kilt) _ s.ai l (λ a done.
        elim (submit_request_cases F permissions ai_config now o target prompt max_tokens s.ai) [
          | inl failed ↦ absurd (failed done)
          | inr (who, did, _, e, r) ↦
              let (_, has) = get_worker_did-HasDid F s.kilt target did v r.credential.has_did in
              rw e (requested-IsLinked F now who target prompt max_tokens s.kilt s.ai has l)
        ])
  ai-IsLinked now o (Ai.Call.update_ai_worker_status online) s v l =
      let permissions = kilt_permissions_impl F C account_id32 now s in
      storage_layer-keeps_ok F (IsLinked F s.kilt) _ s.ai l (λ a done.
        elim (update_ai_worker_status_cases F permissions o online s.ai) [
          | inl failed ↦ absurd (failed done)
          | inr (who, did, _, e, r) ↦ rw e (record { requests = l.requests; results = l.results })
        ])
  ai-IsLinked now o (Ai.Call.submit_inference id output) s v l =
      let permissions = kilt_permissions_impl F C account_id32 now s in
      storage_layer-keeps_ok F (IsLinked F s.kilt) _ s.ai l (λ a done.
        elim (submit_inference_cases F permissions now o id output s.ai) [
          | inl failed ↦ absurd (failed done)
          | inr (who, did, request, _, e, r) ↦
              let (own, has) = get_worker_did-HasDid F s.kilt who did v r.credential.has_did in
              rw (e, own) (answered-IsLinked F now who id output request s.kilt s.ai has r.known l)
        ])
  ai-IsLinked now o (Ai.Call.add_allowed_model id name hash) s v l =
      storage_layer-keeps_ok F (IsLinked F s.kilt) _ s.ai l (λ a done.
        elim (add_allowed_model_cases F o id name hash s.ai) [
          | inl failed ↦ absurd (failed done)
          | inr (_, e, r) ↦ rw e (record { requests = l.requests; results = l.results })
        ])

  kilt-IsLinked :
      (now : ℕ) (o : Origin) (c : Kilt.Call) (s : State F C account_id32)
      → IsValid F s.kilt
      → IsLinked F s.kilt s.ai
      → IsLinked F (Kilt.dispatch F kilt_config now o c s.kilt).1 s.ai
  kilt-IsLinked now o c s v l =
      let keeps : (a : AccountId) → HasDid F s.kilt a → _ =
        λ a h. dispatch-HasDid F kilt_config now o c s.kilt a (generate_did F a) v h in
      record {
        requests = λ id r h. keeps r.target_worker (l.requests id r h);
        results = λ i x h. let (own, has) = l.results i x h in (own, keeps x.worker has);
      }

  dispatch-IsLinked :
      (now : ℕ) (o : Origin) (c : RuntimeCall AccountId) (s : State F C account_id32)
      → IsValid F s.kilt
      → IsLinked F s.kilt s.ai
      → let t = (dispatch F C account_id32 now o c s).1 in IsValid F t.kilt × IsLinked F t.kilt t.ai
  unfolding dispatch
  dispatch-IsLinked now o (qx_kilt_permissions c) s v l =
      (dispatch-IsValid F kilt_config now o c s.kilt v, kilt-IsLinked now o c s v l)
  dispatch-IsLinked now o (qx_ai c) s v l = (v, ai-IsLinked now o c s v l)
  dispatch-IsLinked now o (qx_faucet c) s v l = (v, l)

  run-IsLinked :
      (cs : Calls F C account_id32) (s : State F C account_id32)
      → IsValid F s.kilt
      → IsLinked F s.kilt s.ai
      → let t = run F C account_id32 cs s in IsLinked F t.kilt t.ai
  unfolding run
  run-IsLinked [] s v l = l
  run-IsLinked ((now, o, c) ∷ cs) s v l =
      let (v', l') = dispatch-IsLinked now o c s v l in
      run-IsLinked cs (dispatch F C account_id32 now o c s).1 v' l'

  -- On a new chain, after any history of calls of the runtime, however long, the two pallets agree
  -- on who the workers are: every request in the storage is to an account that has a DID, and every
  -- result names the DID of the worker that gave it, which the KILT pallet still has on record.
  pub run-genesis-IsLinked :
      (cs : Calls F C account_id32) (ledger : Ledger)
      → let t = run F C account_id32 cs (genesis F C account_id32 ledger) in IsLinked F t.kilt t.ai
  unfolding genesis Ai.genesis
  run-genesis-IsLinked cs ledger =
      run-IsLinked cs (genesis F C account_id32 ledger) (genesis-IsValid F) (record {
        requests =
            λ id r h. absurd (ground (arith, h, get-empty {V = InferenceRequest AccountId} id));
        results = λ i x h. absurd (ground (arith, h, get-empty {V = InferenceResult AccountId} i));
      })
