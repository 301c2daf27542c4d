-- ===== src/Ai/Types.antt =====
-- The data of pallets/pallet-qx-ai/src/lib.rs.
use qxchain.Prelude.{ℕ, Bool, List}

abbrev pub DidIdentifier : Type 0
DidIdentifier = List ℕ

pub record AllowedModel : Type 0 where
  pub model_name : List ℕ
  pub model_hash : List ℕ
  pub active : Bool

pub data InferenceStatus : Type 0 where
  completed failed : InferenceStatus

pub data RequestStatus : Type 0 where
  queued assigned completed failed : RequestStatus

pub record InferenceRequest (AccountId : Type 0) : Type 0 where
  pub customer : AccountId
  pub target_worker : AccountId
  pub prompt : List ℕ
  pub max_tokens : ℕ
  pub status : RequestStatus
  pub created_at : ℕ

pub record InferenceResult (AccountId : Type 0) : Type 0 where
  pub request_id : ℕ
  pub worker : AccountId
  pub worker_did : DidIdentifier
  pub output : List ℕ
  pub status : InferenceStatus
  pub submitted_at : ℕ

pub data Event (AccountId : Type 0) : Type 0 where
  request_submitted : ℕ → AccountId → AccountId → Event AccountId
  request_assigned : ℕ → AccountId → Event AccountId
  inference_submitted : ℕ → ℕ → AccountId → DidIdentifier → Event AccountId
  ai_worker_status_updated : AccountId → Bool → Event AccountId
  request_completed : ℕ → ℕ → Event AccountId
  model_added : ℕ → List ℕ → Event AccountId

pub data Error : Type 0 where
  ai_worker_not_found inference_not_found request_not_found ai_worker_queue_full : Error
  request_already_assigned request_not_assigned invalid_worker_credential : Error
  worker_did_not_found : Error

-- the storage items, over the map of the storage, and the events deposited so far
pub record State (Map : Type 0 → Type 0 → Type 0) (AccountId : Type 0) : Type 0 where
  pub authorized_workers : Map DidIdentifier AccountId
  pub allowed_models : Map ℕ AllowedModel
  pub next_model_id : ℕ
  pub next_request_id : ℕ
  pub next_inference_id : ℕ
  pub inference_requests : Map ℕ (InferenceRequest AccountId)
  pub inference_results : Map ℕ (InferenceResult AccountId)
  pub ai_worker_queues : Map AccountId (List ℕ)
  pub request_worker_map : Map ℕ AccountId
  pub ai_worker_status : Map AccountId Bool
  pub events : List (Event AccountId)

-- `Config::MaxQueueSize`
pub record Config : Type 0 where
  pub max_queue_size : ℕ

-- the enum that `#[pallet::call]` makes, a constructor for each call with its arguments
pub data Call (AccountId : Type 0) : Type 0 where
  submit_request : AccountId → List ℕ → ℕ → Call AccountId
  update_ai_worker_status : Bool → Call AccountId
  submit_inference : ℕ → List ℕ → Call AccountId
  add_allowed_model : ℕ → List ℕ → List ℕ → Call AccountId
