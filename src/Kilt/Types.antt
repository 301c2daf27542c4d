-- ===== src/Kilt/Types.antt =====
-- The data of pallets/pallet-qx-kilt-permissions/src/lib.rs. A DID is its 32 bytes; a block number
-- is a `u32`, as the runtime fixes it.
use qxchain.Prelude.{ℕ, Option, List}

abbrev pub DidIdentifier : Type 0
DidIdentifier = List ℕ

abbrev pub ModelId : Type 0
ModelId = ℕ

pub record WorkerMetadata : Type 0 where
  pub name : List ℕ
  pub description : List ℕ
  pub registered_at : ℕ

pub data CredentialStatus : Type 0 where
  active : CredentialStatus
  suspended : ℕ → CredentialStatus
  revoked : CredentialStatus

pub record WorkerDid (AccountId : Type 0) : Type 0 where
  pub did : DidIdentifier
  pub account : AccountId
  pub metadata : WorkerMetadata
  pub status : CredentialStatus

pub record AiWorkerCredential : Type 0 where
  pub issuer : DidIdentifier
  pub subject : DidIdentifier
  pub models : List ModelId
  pub issued_at : ℕ
  pub expires_at : Option ℕ

pub data Event (AccountId : Type 0) : Type 0 where
  worker_did_created : AccountId → DidIdentifier → Event AccountId
  worker_credential_issued : DidIdentifier → Option ℕ → Event AccountId
  worker_credential_revoked : DidIdentifier → Event AccountId
  worker_suspended : DidIdentifier → ℕ → Event AccountId
  governance_did_set : DidIdentifier → Event AccountId

pub data Error : Type 0 where
  worker_did_already_exists worker_did_not_found worker_credential_not_found : Error
  invalid_credential_issuer credential_expired credential_suspended credential_revoked : Error
  not_authorized_to_issue not_authorized_to_revoke governance_did_not_set account_has_no_did : Error
  invalid_bounded_vec : Error

-- the storage items, over the map of the storage, and the events deposited so far
pub record State (Map : Type 0 → Type 0 → Type 0) (AccountId : Type 0) : Type 0 where
  pub worker_dids : Map AccountId (WorkerDid AccountId)
  pub worker_credentials : Map DidIdentifier AiWorkerCredential
  pub account_to_did : Map AccountId DidIdentifier
  pub governance_did : DidIdentifier
  pub events : List (Event AccountId)

-- the constants of `Config`, in blocks
pub record Config : Type 0 where
  pub default_credential_validity : ℕ
  pub worker_suspension_period : ℕ

-- the enum that `#[pallet::call]` makes, a constructor for each call with its arguments
pub data Call : Type 0 where
  set_governance_did : DidIdentifier → Call
  create_worker_did : List ℕ → List ℕ → Call
  issue_worker_credential : DidIdentifier → List ModelId → Option ℕ → Call
  revoke_worker_credential : DidIdentifier → Call
  suspend_worker : DidIdentifier → Option ℕ → Call
