-- ===== src/Ai.antt =====
-- pallets/pallet-qx-ai/src/lib.rs: the calls and the getters. `now` is
-- `frame_system::Pallet::<T>::block_number()`; the arguments of a call that are a `BoundedVec` are
-- within their bound.
pub mod Types
pub mod Ids
pub mod Outcomes
pub mod Queues
pub mod Lifecycle
pub mod Records
pub mod History
pub mod Replay
pub mod Access
pub use Types.*
use qxchain.Prelude.{
  ℕ, ⊤, Bool, true, false, not, Option, none, some, List, [], ◌∷◌, ◌++◌, wrapping_add,
  saturated_into, retain, ◌==◌,
}
use mathlib.Core.Option
use qxchain.Errors.{bad_origin, ai}
use qxchain.Frame.{
  Frame, Key, nat_key, bytes_key, eqb, Result, ok_or, map_err, ok_or_false, Exec, lift, gets,
  ensure, modify, ◌>>=◌, ◌>>◌,
}

-- the trait `KiltPermissions`, at the storage that the call reads
pub record KiltPermissions (AccountId : Type 0) : Type 0 where
  pub verify_worker_credential : DidIdentifier → Result Bool
  pub get_worker_did : AccountId → Result DidIdentifier

-- `request.status == RequestStatus::Queued`
abbrev pub is_queued : RequestStatus → Bool
is_queued RequestStatus.queued = true
is_queued _ = false

module _ {AccountId : Type 0} ⦃account_key : Key AccountId⦄ (F : Frame AccountId) where
  open F use {
    Map, empty, get, insert, remove, try_push, Origin, ensure_signed, ensure_root, storage_layer,
  }

  abbrev pub Pallet : Type 0
  Pallet = State Map AccountId

  abbrev deposit_event : Event AccountId → Exec Pallet ⊤
  deposit_event e = modify (λ s. record s { events = s.events ++ e ∷ [] })

  -- what `try_mutate` writes back
  abbrev pub write_back : {K V : Type 0} ⦃key : Key K⦄ → Map K V → K → Option V → Map K V
  write_back m k none = remove m k
  write_back m k (some v) = insert m k v

  -- `AIWorkerQueues::<T>::try_mutate` in `submit_request`
  push_request : Config → AccountId → ℕ → Exec Pallet ⊤
  push_request config target_worker request_id = do
    queue_opt ← gets (λ s. get s.ai_worker_queues target_worker)
    let queue = Option.get_or queue_opt []
    queue' ←
        lift
          (ok_or (try_push config.max_queue_size queue request_id) (ai Error.ai_worker_queue_full))
    modify (λ s. record s { ai_worker_queues = insert s.ai_worker_queues target_worker queue' })

  unfoldable pub submit_request :
      KiltPermissions AccountId → Config → ℕ → Origin → AccountId → List ℕ → ℕ → Exec Pallet ⊤
  unfolding push_request
  submit_request permissions config now origin target_worker prompt max_tokens = do
    who ← lift (ok_or (ensure_signed origin) bad_origin)
    worker_did ←
        lift (map_err (permissions.get_worker_did target_worker) (ai Error.worker_did_not_found))
    ensure (ok_or_false (permissions.verify_worker_credential worker_did))
        (ai Error.invalid_worker_credential)
    request_id ← gets (λ s. s.next_request_id)
    modify (λ s. record s { next_request_id = wrapping_add request_id 1 })
    let request : InferenceRequest AccountId = record {
      customer = who;
      target_worker = target_worker;
      prompt = prompt;
      max_tokens = max_tokens;
      status = RequestStatus.queued;
      created_at = saturated_into now;
    }
    modify (λ s. record s { inference_requests = insert s.inference_requests request_id request })
    modify (λ s. record s {
      request_worker_map = insert s.request_worker_map request_id target_worker;
    })
    push_request config target_worker request_id
    deposit_event (request_submitted request_id who target_worker)
    deposit_event (request_assigned request_id target_worker)

  unfoldable pub update_ai_worker_status : KiltPermissions AccountId → Origin → Bool → Exec Pallet ⊤
  update_ai_worker_status permissions origin online = do
    who ← lift (ok_or (ensure_signed origin) bad_origin)
    worker_did ← lift (permissions.get_worker_did who)
    valid ← lift (permissions.verify_worker_credential worker_did)
    ensure valid (ai Error.invalid_worker_credential)
    modify (λ s. record s { ai_worker_status = insert s.ai_worker_status who online })
    deposit_event (ai_worker_status_updated who online)

  -- `InferenceRequests::<T>::try_mutate` in `submit_inference`
  complete_request : ℕ → Exec Pallet ⊤
  complete_request request_id = do
    req_opt ← gets (λ s. get s.inference_requests request_id)
    req ← lift (ok_or req_opt (ai Error.request_not_found))
    modify (λ s. record s {
      inference_requests =
          insert s.inference_requests request_id (record req { status = RequestStatus.completed });
    })

  -- `AIWorkerQueues::<T>::try_mutate` in `submit_inference`
  retain_others : AccountId → ℕ → Exec Pallet ⊤
  retain_others who request_id = do
    queue_opt ← gets (λ s. get s.ai_worker_queues who)
    let queue_opt' = Option.map (retain (λ id. not (id == request_id))) queue_opt
    modify (λ s. record s { ai_worker_queues = write_back s.ai_worker_queues who queue_opt' })

  unfoldable pub submit_inference :
      KiltPermissions AccountId → ℕ → Origin → ℕ → List ℕ → Exec Pallet ⊤
  unfolding complete_request retain_others
  submit_inference permissions now origin request_id output = do
    who ← lift (ok_or (ensure_signed origin) bad_origin)
    worker_did ← lift (permissions.get_worker_did who)
    valid ← lift (permissions.verify_worker_credential worker_did)
    ensure valid (ai Error.invalid_worker_credential)
    request_opt ← gets (λ s. get s.inference_requests request_id)
    request ← lift (ok_or request_opt (ai Error.request_not_found))
    ensure (eqb request.target_worker who) (ai Error.request_not_assigned)
    ensure (is_queued request.status) (ai Error.request_already_assigned)
    inference_id ← gets (λ s. s.next_inference_id)
    modify (λ s. record s { next_inference_id = wrapping_add inference_id 1 })
    let result : InferenceResult AccountId = record {
      request_id = request_id;
      worker = who;
      worker_did = worker_did;
      output = output;
      status = InferenceStatus.completed;
      submitted_at = saturated_into now;
    }
    modify (λ s. record s { inference_results = insert s.inference_results inference_id result })
    complete_request request_id
    retain_others who request_id
    deposit_event (inference_submitted inference_id request_id who worker_did)
    deposit_event (request_completed request_id inference_id)

  unfoldable pub add_allowed_model : Origin → ℕ → List ℕ → List ℕ → Exec Pallet ⊤
  add_allowed_model origin model_id model_name model_hash = do
    ensure (ensure_root origin) bad_origin
    let model : AllowedModel = record {
      model_name = model_name;
      model_hash = model_hash;
      active = true;
    }
    modify (λ s. record s { allowed_models = insert s.allowed_models model_id model })
    deposit_event (model_added model_id model_name)

  unfoldable pub get_inference_result : Pallet → ℕ → Option (InferenceResult AccountId)
  get_inference_result s inference_id = get s.inference_results inference_id

  unfoldable pub get_allowed_model : Pallet → ℕ → Option AllowedModel
  get_allowed_model s model_id = get s.allowed_models model_id

  -- the call that a transaction names, in its storage layer
  unfoldable pub dispatch :
      KiltPermissions AccountId → Config → ℕ → Origin → Call AccountId → Exec Pallet ⊤
  dispatch permissions config now o (Call.submit_request target_worker prompt max_tokens) =
      storage_layer (submit_request permissions config now o target_worker prompt max_tokens)
  dispatch permissions config now o (Call.update_ai_worker_status online) =
      storage_layer (update_ai_worker_status permissions o online)
  dispatch permissions config now o (Call.submit_inference request_id output) =
      storage_layer (submit_inference permissions now o request_id output)
  dispatch permissions config now o (Call.add_allowed_model model_id model_name model_hash) =
      storage_layer (add_allowed_model o model_id model_name model_hash)

  -- a dispatched call, with the KILT storage, the block number and the origin that it meets
  abbrev pub Step : Type 0
  Step = KiltPermissions AccountId × ℕ × Origin × Call AccountId

  unfoldable pub run : Config → List Step → Pallet → Pallet
  run config [] s = s
  run config ((permissions, now, o, c) ∷ cs) s =
      run config cs (dispatch permissions config now o c s).1

  -- the storage of a new chain: every map empty, every counter at its default
  unfoldable pub genesis : Pallet
  genesis = record {
    authorized_workers = empty;
    allowed_models = empty;
    next_model_id = 0;
    next_request_id = 0;
    next_inference_id = 0;
    inference_requests = empty;
    inference_results = empty;
    ai_worker_queues = empty;
    request_worker_map = empty;
    ai_worker_status = empty;
    events = [];
  }
