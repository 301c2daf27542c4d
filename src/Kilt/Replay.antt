-- ===== src/Kilt/Replay.antt =====
-- The events of pallets/pallet-qx-kilt-permissions/src/lib.rs as a record of what its storage
-- holds.
pub mod Calls
use qxchain.Prelude.{
  ℕ, ◌≡◌, refl, Bool, true, false, Option, none, some, List, [], ◌∷◌, ◌++◌, ite, if◌then◌else◌,
}
use mathlib.Core.Option
use qxchain.Errors.{kilt}
use qxchain.Frame.{Frame, Key, update, bytes_key, Result, ok, err}
use qxchain.Kilt.{
  Pallet, DidIdentifier, CredentialStatus, active, suspended, Event, worker_did_created,
  worker_credential_issued, worker_credential_revoked, worker_suspended, governance_did_set,
  generate_did, WorkerDid, AiWorkerCredential, Error, status_allows, is_expired,
}

-- what the events tell of: the DID of each worker and its status, and until when a DID has a
-- credential
pub record Book (AccountId : Type 0) : Type 0 where
  pub dids : AccountId → Option DidIdentifier
  pub status : DidIdentifier → Option CredentialStatus
  pub expiry : DidIdentifier → Option (Option ℕ)

abbrev pub empty_book : {AccountId : Type 0} → Book AccountId
empty_book = record { dids = λ a. none; status = λ d. none; expiry = λ d. none }

abbrev pub suspend : ℕ → CredentialStatus → CredentialStatus
suspend until _ = suspended until

-- the verdict on the status of a DID, which may be that of no worker
abbrev pub allows : ℕ → Option CredentialStatus → Bool
allows now none = true
allows now (some status) = status_allows now status

-- `verify_worker_credential`, by the book
abbrev pub verify : {AccountId : Type 0} → ℕ → Book AccountId → DidIdentifier → Result Bool
verify now b did = elim (b.expiry did) [
  | none ↦ err (kilt Error.worker_credential_not_found)
  | some expires_at ↦ ok (if is_expired now expires_at then false else allows now (b.status did))
]

abbrev pub status_of : {AccountId : Type 0} → WorkerDid AccountId → CredentialStatus
status_of w = w.status

abbrev pub expires_of : AiWorkerCredential → Option ℕ
expires_of c = c.expires_at

module _ {AccountId : Type 0} ⦃account_key : Key AccountId⦄ where
  abbrev pub note : Book AccountId → Event AccountId → Book AccountId
  note b (worker_did_created account did) = record b {
    dids = update b.dids account (some did);
    status = update b.status did (some active);
  }
  note b (worker_credential_issued did expires_at) = record b {
    expiry = update b.expiry did (some expires_at);
  }
  note b (worker_credential_revoked did) = record b { expiry = update b.expiry did none }
  note b (worker_suspended did until) = record b {
    status = update b.status did (Option.map (suspend until) (b.status did));
  }
  note b (governance_did_set did) = b

  unfoldable pub replay : List (Event AccountId) → Book AccountId → Book AccountId
  replay [] b = b
  replay (e ∷ es) b = replay es (note b e)

  pub replay-snoc :
      (es : List (Event AccountId)) (e : Event AccountId) (b : Book AccountId)
      → replay (es ++ e ∷ []) b ≡ note (replay es b) e
  unfolding replay
  replay-snoc [] e b = refl
  replay-snoc (x ∷ es) e b = replay-snoc es e (note b x)

  -- The book agrees with the storage, and tells the status of the DIDs of accounts only.
  pub record Tells (F : Frame AccountId) (s : Pallet F) (b : Book AccountId) : Type 0 where
    pub dids : (a : AccountId) → F.get s.account_to_did a ≡ b.dids a
    pub status :
        (a : AccountId) → Option.map status_of (F.get s.worker_dids a) ≡ b.status (generate_did F a)
    pub owners :
        (d : DidIdentifier) (x : CredentialStatus)
        → b.status d ≡ some x
        → (a : AccountId) × (generate_did F a ≡ d)
    pub expiry :
        (d : DidIdentifier) → Option.map expires_of (F.get s.worker_credentials d) ≡ b.expiry d
