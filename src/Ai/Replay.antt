-- ===== src/Ai/Replay.antt =====
-- The events of pallets/pallet-qx-ai/src/lib.rs as a record of what its storage holds: what a
-- reader of the events alone can tell.
pub mod Calls
use qxchain.Prelude.{ℕ, Bool, ◌≡◌, Option, none, some, List, [], ◌∷◌, ◌++◌, ite, refl}
use mathlib.Core.Option
use qxchain.Frame.{Frame, Key, update, nat_key}
use qxchain.Ai.Ids.{without}
use qxchain.Ai.{
  Pallet, DidIdentifier, Event, request_submitted, request_assigned, inference_submitted,
  ai_worker_status_updated, request_completed, model_added, RequestStatus, InferenceRequest,
  InferenceResult, AllowedModel,
}
use qxchain.Ai.Outcomes.{queue_of}

-- what the events tell of: a request with its customer, its worker and its status, a result with
-- its request, its worker and the DID
pub record Book (AccountId : Type 0) : Type 0 where
  pub requests : ℕ → Option (AccountId × AccountId × RequestStatus)
  pub results : ℕ → Option (ℕ × AccountId × DidIdentifier)
  pub queues : AccountId → List ℕ
  pub online : AccountId → Option Bool
  pub models : ℕ → Option (List ℕ)

abbrev pub empty_book : {AccountId : Type 0} → Book AccountId
empty_book = record {
  requests = λ id. none;
  results = λ id. none;
  queues = λ a. [];
  online = λ a. none;
  models = λ id. none;
}

abbrev pub complete :
    {AccountId : Type 0}
    → AccountId × AccountId × RequestStatus
    → AccountId × AccountId × RequestStatus
complete (customer, worker, _) = (customer, worker, RequestStatus.completed)

abbrev pub request_view :
    {AccountId : Type 0} → InferenceRequest AccountId → AccountId × AccountId × RequestStatus
request_view r = (r.customer, r.target_worker, r.status)

abbrev pub result_view :
    {AccountId : Type 0} → InferenceResult AccountId → ℕ × AccountId × DidIdentifier
result_view x = (x.request_id, x.worker, x.worker_did)

abbrev pub model_view : AllowedModel → List ℕ
model_view m = m.model_name

module _ {AccountId : Type 0} ⦃account_key : Key AccountId⦄ where
  abbrev pub note : Book AccountId → Event AccountId → Book AccountId
  note b (request_submitted id customer worker) = record b {
    requests = update b.requests id (some (customer, worker, RequestStatus.queued));
  }
  note b (request_assigned id worker) = record b {
    queues = update b.queues worker (b.queues worker ++ id ∷ []);
  }
  note b (inference_submitted inference_id id worker did) = record b {
    results = update b.results inference_id (some (id, worker, did));
    queues = update b.queues worker (without id (b.queues worker));
  }
  note b (ai_worker_status_updated worker online) = record b {
    online = update b.online worker (some online);
  }
  note b (request_completed id inference_id) = record b {
    requests = update b.requests id (Option.map complete (b.requests id));
  }
  note b (model_added id name) = record b { models = update b.models id (some name) }

  unfoldable pub replay : List (Event AccountId) → Book AccountId → Book AccountId
  replay [] b = b
  replay (e ∷ es) b = replay es (note b e)

  pub replay-snoc :
      (es : List (Event AccountId)) (e : Event AccountId) (b : Book AccountId)
      → replay (es ++ e ∷ []) b ≡ note (replay es b) e
  unfolding replay
  replay-snoc [] e b = refl
  replay-snoc (x ∷ es) e b = replay-snoc es e (note b x)

  -- The book agrees with the storage.
  pub record Tells (F : Frame AccountId) (s : Pallet F) (b : Book AccountId) : Type 0 where
    pub requests :
        (id : ℕ) → Option.map request_view (F.get s.inference_requests id) ≡ b.requests id
    pub results : (id : ℕ) → Option.map result_view (F.get s.inference_results id) ≡ b.results id
    pub queues : (a : AccountId) → queue_of F s a ≡ b.queues a
    pub online : (a : AccountId) → F.get s.ai_worker_status a ≡ b.online a
    pub models : (id : ℕ) → Option.map model_view (F.get s.allowed_models id) ≡ b.models id
