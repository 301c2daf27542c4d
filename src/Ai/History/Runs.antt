-- ===== src/Ai/History/Runs.antt =====
-- The requests, queues and results of pallets/pallet-qx-ai/src/lib.rs over histories of calls.
use qxchain.Prelude.{ℕ, suc, ◌≤◌, ◌≡◌, refl, ◌≢◌, List, [], ◌∷◌, arith, u32_max, ap, ◌∙◌, length}
use qxchain.Frame.{Frame, Key, nat_key, bytes_key, ok}
use qxchain.Frame.Layer.{storage_layer_ok}
use qxchain.Ai.{
  KiltPermissions, Config, Pallet, submit_inference, Call, dispatch, run, Step, genesis,
  InferenceRequest, InferenceResult,
}
use qxchain.Ai.Outcomes.{submit_inference_ok}
use qxchain.Ai.Queues.{IsQueued}
use qxchain.Ai.Queues.Calls.{dispatch-IsQueued}
use qxchain.Ai.Records.{IsRecorded, IsCompleted, completed_at}
use qxchain.Ai.Lifecycle.{submit_inference-ok_iff}
use qxchain.Ai.History.{HasIds, Advances, dispatch-Advances}

module _ {AccountId : Type 0} ⦃account_key : Key AccountId⦄ (F : Frame AccountId)
    (config : Config) where
  open F use {get, get-empty, Origin}

  run-Advances :
      (cs : List (Step F)) (s : Pallet F)
      → IsRecorded F s
      → HasIds F (length cs) s
      → Advances F 0 s (run F config cs s)
  unfolding run
  run-Advances [] s v h = record { valid = v; ids = h; completed = λ a id c. c }
  run-Advances ((permissions, now, o, c) ∷ cs) s v h =
      let first = dispatch-Advances F (length cs) permissions config now o c s v h in
      let rest =
        run-Advances cs (dispatch F permissions config now o c s).1 first.valid first.ids in
      record {
        valid = rest.valid;
        ids = rest.ids;
        completed = λ a id k. rest.completed a id (first.completed a id k);
      }

  run-IsQueued :
      (cs : List (Step F)) (s : Pallet F)
      → IsQueued F config s
      → IsRecorded F s
      → HasIds F (length cs) s
      → IsQueued F config (run F config cs s)
  unfolding run
  run-IsQueued [] s q v h = q
  run-IsQueued ((permissions, now, o, c) ∷ cs) s q v h =
      let first = dispatch-Advances F (length cs) permissions config now o c s v h in
      run-IsQueued cs (dispatch F permissions config now o c s).1
        (dispatch-IsQueued F permissions config now o c s q (omega (arith, h.requests))) first.valid
        first.ids

  genesis-IsQueued : IsQueued F config (genesis F)
  unfolding genesis
  genesis-IsQueued = record {
    bounded = λ a. ground (arith, get-empty {V = List ℕ} a);
    ascending = λ a. ground (arith, get-empty {V = List ℕ} a);
    sound = λ a id h. ground (arith, get-empty {V = List ℕ} a, h);
    complete = λ a id h. ground (arith, get-empty {V = InferenceRequest AccountId} id, h);
    fresh = λ id r h. ground (arith, get-empty {V = InferenceRequest AccountId} id, h);
    mapped = λ id.
        ground (arith, get-empty {V = InferenceRequest AccountId} id, get-empty {V = AccountId} id);
  }

  genesis-IsRecorded : IsRecorded F (genesis F)
  unfolding genesis
  genesis-IsRecorded = record {
    fresh = λ id r h. ground (arith, get-empty {V = InferenceRequest AccountId} id, h);
    progress = λ id r h. absurd (ground (arith, get-empty {V = InferenceRequest AccountId} id, h));
    numbered = λ i x h. ground (arith, get-empty {V = InferenceResult AccountId} i, h);
    recorded = λ i x h. absurd (ground (arith, get-empty {V = InferenceResult AccountId} i, h));
    single = λ i j x y h k p. ground (arith, get-empty {V = InferenceResult AccountId} i, h);
    fulfilled = λ id a h. absurd (ground (arith, get-empty {V = InferenceRequest AccountId} id, h));
  }

  -- On a new chain, after any history of at most as many calls as there are request ids, whoever
  -- makes them and however they end: the queues are within their bound and hold exactly the waiting
  -- requests of each worker, oldest first, and the results are exactly one for each completed
  -- request, from the worker that it was addressed to.
  pub run-genesis :
      (cs : List (Step F))
      → length cs ≤ u32_max
      → IsQueued F config (run F config cs (genesis F)) × IsRecorded F (run F config cs (genesis F))
  unfolding genesis
  run-genesis cs h =
      let ids : HasIds F (length cs) (genesis F) = record {
        requests = omega (arith, h);
        inferences = omega (arith, h);
      } in
      (
        run-IsQueued cs (genesis F) genesis-IsQueued genesis-IsRecorded ids,
        (run-Advances cs (genesis F) genesis-IsRecorded ids).valid,
      )

  IsCompleted-submit_inference :
      (permissions : KiltPermissions AccountId) (now : ℕ) (o : Origin) (id : ℕ) (output : List ℕ)
      (s : Pallet F)
      → IsRecorded F s
      → HasIds F 1 s
      → (dispatch F permissions config now o (Call.submit_inference id output) s).0 ≡ ok tt
      → (who : AccountId) × IsCompleted F
          (dispatch F permissions config now o (Call.submit_inference id output) s).1
          who
          id
  unfolding dispatch
  IsCompleted-submit_inference permissions now o id output s v h success =
      let (who, did, request, r) =
        (submit_inference-ok_iff F permissions config now o id output s).0 success in
      let second = submit_inference_ok F permissions now o id output s who did request r in
      let e =
        storage_layer_ok F (submit_inference F permissions now o id output) s tt
          (ap (λ x. x.0) second)
        ∙ second in
      (
        who,
        rw
            (
              e,
              completed_at F now who did id output request s v r.known r.own r.waiting
                  (omega (arith, h.inferences)),
            )
            (r.own, refl),
      )

  -- A request is answered at most once: when an answer was accepted in a well-formed storage, no
  -- history of further calls, short of exhausting the ids, leads to one in which an answer to that
  -- request is accepted again, from whomever it comes.
  pub submit_inference_once :
      (permissions permissions' : KiltPermissions AccountId) (now now' : ℕ) (o o' : Origin) (id : ℕ)
      (output output' : List ℕ) (cs : List (Step F)) (s : Pallet F)
      → IsRecorded F s
      → HasIds F (suc (length cs)) s
      → (dispatch F permissions config now o (Call.submit_inference id output) s).0 ≡ ok tt
      → let t = (dispatch F permissions config now o (Call.submit_inference id output) s).1 in
        (dispatch F permissions' config now' o'
          (Call.submit_inference id output')
          (run F config cs t)).0
        ≢ ok tt
  submit_inference_once permissions permissions' now now' o o' id output output' cs s v h success
        again =
      let first =
        dispatch-Advances F (length cs) permissions config now o (Call.submit_inference id output) s
          v h in
      let t = (dispatch F permissions config now o (Call.submit_inference id output) s).1 in
      let one : HasIds F 1 s = record {
        requests = omega (arith, h.requests);
        inferences = omega (arith, h.inferences);
      } in
      let (who, done) = IsCompleted-submit_inference permissions now o id output s v one success in
      let later = (run-Advances cs t first.valid first.ids).completed who id done in
      let (_, _, request, r) =
        (submit_inference-ok_iff F permissions' config now' o' id output' (run F config cs t)).0
          again in
      ground (arith, later, r)
