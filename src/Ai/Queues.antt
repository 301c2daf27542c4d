-- ===== src/Ai/Queues.antt =====
-- The queues of pallets/pallet-qx-ai/src/lib.rs against the requests: what they hold, in which
-- order, and how long they get.
pub mod Requested
pub mod Answered
pub mod Calls
use qxchain.Prelude.{ℕ, ◌<◌, ◌≤◌, ◌≡◌, Option, none, some, length, Elem}
use mathlib.Core.Option
use qxchain.Frame.{Frame, Key, nat_key, bytes_key}
use qxchain.Ai.Ids.{Ascends}
use qxchain.Ai.{Config, Pallet, InferenceRequest, RequestStatus}
use qxchain.Ai.Outcomes.{queue_of}

-- the request is there, for this worker and with this status
abbrev pub HasStatus :
    {AccountId : Type 0} → Option (InferenceRequest AccountId) → AccountId → RequestStatus → Type 0
HasStatus none a status = ⊥
HasStatus (some r) a status = (r.target_worker ≡ a) × (r.status ≡ status)

abbrev pub target_of : {AccountId : Type 0} → Option (InferenceRequest AccountId) → Option AccountId
target_of none = none
target_of (some r) = some r.target_worker

module _ {AccountId : Type 0} ⦃account_key : Key AccountId⦄ (F : Frame AccountId) where
  open F use {get, insert, remove, get-insert, get-remove, ensure_signed, ensure_root, Origin}

  abbrev pub IsWaiting : Pallet F → AccountId → ℕ → Type 0
  IsWaiting s a id = HasStatus (get s.inference_requests id) a RequestStatus.queued

  pub record IsQueued (config : Config) (s : Pallet F) : Type 0 where
    pub bounded : (a : AccountId) → length (queue_of F s a) ≤ config.max_queue_size
    pub ascending : (a : AccountId) → Ascends (queue_of F s a)
    pub sound : (a : AccountId) (id : ℕ) → Elem id (queue_of F s a) → IsWaiting s a id
    pub complete : (a : AccountId) (id : ℕ) → IsWaiting s a id → Elem id (queue_of F s a)
    pub fresh :
        (id : ℕ) (r : InferenceRequest AccountId)
        → get s.inference_requests id ≡ some r
        → id < s.next_request_id
    pub mapped : (id : ℕ) → get s.request_worker_map id ≡ target_of (get s.inference_requests id)
