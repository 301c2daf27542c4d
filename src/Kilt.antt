-- ===== src/Kilt.antt =====
-- pallets/pallet-qx-kilt-permissions/src/lib.rs: the calls and the helper functions. `now` is
-- `frame_system::Pallet::<T>::block_number()`.
pub mod Types
pub mod Outcomes
pub mod Invariant
pub mod Access
pub mod Credentials
pub mod Suspension
pub mod Barred
pub mod Onboarding
pub mod Replay
pub mod Order
pub use Types.*
use qxchain.Prelude.{
  ℕ, ⊤, Bool, true, false, Option, none, some, List, [], ◌∷◌, ◌++◌, ltb, take, length, replicate,
  min, ◌-◌, saturating_add, if◌then◌else◌,
}
use mathlib.Core.Option
use qxchain.Errors.{bad_origin, kilt}
use qxchain.Frame.{
  Frame, Key, bytes_key, eqb, Result, ok, err, ok_or, is_none, Exec, lift, gets, ensure, modify,
  ◌>>=◌, ◌>>◌,
}

-- `did[..len].copy_from_slice(&hash_bytes[..len])` over `[0u8; 32]`
abbrev copy_from_slice : ℕ → List ℕ → List ℕ
copy_from_slice size bytes =
    let len = min (length bytes) size in take len bytes ++ replicate (size - len) 0

-- the `match` on the status of the worker
unfoldable pub status_allows : ℕ → CredentialStatus → Bool
status_allows now active = true
status_allows now (suspended until) = ltb until now
status_allows now revoked = false

-- the test `if let Some(expires_at) = credential.expires_at`
abbrev pub is_expired : ℕ → Option ℕ → Bool
is_expired now none = false
is_expired now (some expires_at) = ltb expires_at now

module _ {AccountId : Type 0} ⦃account_key : Key AccountId⦄ (F : Frame AccountId) where
  open F use {
    Map, empty, get, insert, remove, iter, try_from, Origin, ensure_signed, ensure_root, hash_of,
    storage_layer,
  }

  abbrev pub Pallet : Type 0
  Pallet = State Map AccountId

  abbrev deposit_event : Event AccountId → Exec Pallet ⊤
  deposit_event e = modify (λ s. record s { events = s.events ++ e ∷ [] })

  unfoldable pub set_governance_did : Origin → DidIdentifier → Exec Pallet ⊤
  set_governance_did origin did = do
    ensure (ensure_root origin) bad_origin
    modify (λ s. record s { governance_did = did })
    deposit_event (governance_did_set did)

  unfoldable pub generate_did : AccountId → DidIdentifier
  generate_did account = copy_from_slice 32 (hash_of account)

  unfoldable pub create_worker_did : ℕ → Origin → List ℕ → List ℕ → Exec Pallet ⊤
  create_worker_did now origin name description = do
    who ← lift (ok_or (ensure_signed origin) bad_origin)
    existing ← gets (λ s. get s.worker_dids who)
    ensure (is_none existing) (kilt Error.worker_did_already_exists)
    let did = generate_did who
    name ← lift (ok_or (try_from 128 name) (kilt Error.invalid_bounded_vec))
    description ← lift (ok_or (try_from 512 description) (kilt Error.invalid_bounded_vec))
    let metadata : WorkerMetadata = record {
      name = name;
      description = description;
      registered_at = now;
    }
    let worker_did : WorkerDid AccountId = record {
      did = did;
      account = who;
      metadata = metadata;
      status = active;
    }
    modify (λ s. record s { worker_dids = insert s.worker_dids who worker_did })
    modify (λ s. record s { account_to_did = insert s.account_to_did who did })
    deposit_event (worker_did_created who did)

  unfoldable pub issue_worker_credential :
      ℕ → Origin → DidIdentifier → List ModelId → Option ℕ → Exec Pallet ⊤
  issue_worker_credential now origin worker_did models validity_period = do
    ensure (ensure_root origin) bad_origin
    governance_did ← gets (λ s. s.governance_did)
    let expires_at = Option.map (saturating_add now) validity_period
    models ← lift (ok_or (try_from 100 models) (kilt Error.invalid_bounded_vec))
    let credential : AiWorkerCredential = record {
      issuer = governance_did;
      subject = worker_did;
      models = models;
      issued_at = now;
      expires_at = expires_at;
    }
    modify
        (λ s. record s { worker_credentials = insert s.worker_credentials worker_did credential })
    deposit_event (worker_credential_issued worker_did expires_at)

  unfoldable pub revoke_worker_credential : Origin → DidIdentifier → Exec Pallet ⊤
  revoke_worker_credential origin worker_did = do
    ensure (ensure_root origin) bad_origin
    modify (λ s. record s { worker_credentials = remove s.worker_credentials worker_did })
    deposit_event (worker_credential_revoked worker_did)

  -- the `for` loop over `WorkerDIDs::<T>::iter()`, with its `break` after the first match
  unfoldable pub suspend_first :
      DidIdentifier → ℕ → List (AccountId × WorkerDid AccountId) → Pallet → Pallet
  suspend_first worker_did until [] s = s
  suspend_first worker_did until ((account, info) ∷ rest) s =
      if eqb info.did worker_did
      then record s {
        worker_dids = insert s.worker_dids account (record info { status = suspended until });
      }
      else suspend_first worker_did until rest s

  unfoldable pub suspend_worker : Config → ℕ → Origin → DidIdentifier → Option ℕ → Exec Pallet ⊤
  suspend_worker config now origin worker_did duration = do
    ensure (ensure_root origin) bad_origin
    let until = saturating_add now (Option.get_or duration config.worker_suspension_period)
    workers ← gets (λ s. iter s.worker_dids)
    modify (suspend_first worker_did until workers)
    deposit_event (worker_suspended worker_did until)

  unfoldable pub suspend_worker_credential : ℕ → DidIdentifier → ℕ → Exec Pallet ⊤
  suspend_worker_credential now worker_did duration = do
    let until = saturating_add now duration
    workers ← gets (λ s. iter s.worker_dids)
    modify (suspend_first worker_did until workers)
    deposit_event (worker_suspended worker_did until)

  -- the `for` loop of `verify_worker_credential`, and the `Ok(true)` after it
  unfoldable pub verify_status : ℕ → DidIdentifier → List (AccountId × WorkerDid AccountId) → Bool
  unfolding status_allows
  verify_status now worker_did [] = true
  verify_status now worker_did ((_, info) ∷ rest) =
      if eqb info.did worker_did
      then status_allows now info.status
      else verify_status now worker_did rest

  unfoldable pub verify_worker_credential : ℕ → Pallet → DidIdentifier → Result Bool
  verify_worker_credential now s worker_did = elim (get s.worker_credentials worker_did) [
    | none ↦ err (kilt Error.worker_credential_not_found)
    | some credential ↦ ok (
        if is_expired now credential.expires_at
        then false
        else verify_status now worker_did (iter s.worker_dids))
  ]

  unfoldable pub get_worker_did : Pallet → AccountId → Result DidIdentifier
  get_worker_did s account = ok_or (get s.account_to_did account) (kilt Error.account_has_no_did)

  -- the call that a transaction names, in its storage layer
  unfoldable pub dispatch : Config → ℕ → Origin → Call → Exec Pallet ⊤
  dispatch config now o (Call.set_governance_did did) = storage_layer (set_governance_did o did)
  dispatch config now o (Call.create_worker_did name description) =
      storage_layer (create_worker_did now o name description)
  dispatch config now o (Call.issue_worker_credential did models period) =
      storage_layer (issue_worker_credential now o did models period)
  dispatch config now o (Call.revoke_worker_credential did) =
      storage_layer (revoke_worker_credential o did)
  dispatch config now o (Call.suspend_worker did duration) =
      storage_layer (suspend_worker config now o did duration)

  -- a history of dispatched calls, each with its block number and origin
  unfoldable pub run : Config → List (ℕ × Origin × Call) → Pallet → Pallet
  run config [] s = s
  run config ((now, o, c) ∷ cs) s = run config cs (dispatch config now o c s).1

  -- the storage of a new chain: every map empty, and the governance DID all zeros
  unfoldable pub genesis : Pallet
  genesis = record {
    worker_dids = empty;
    worker_credentials = empty;
    account_to_did = empty;
    governance_did = replicate 32 0;
    events = [];
  }
