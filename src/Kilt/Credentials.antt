-- ===== src/Kilt/Credentials.antt =====
-- What `verify_worker_credential` of pallets/pallet-qx-kilt-permissions/src/lib.rs answers, in
-- terms of what the storage holds, and after credentials are issued and revoked.
use qxchain.Prelude.{
  ℕ, ◌≤◌, ◌≡◌, ◌≢◌, inl, inr, Option, none, some, false, true, List, arith, if◌then◌else◌, ltb,
  saturating_add, length,
}
use qxchain.Errors.{kilt}
use qxchain.Frame.{Frame, Key, bytes_key, ok, err}
use qxchain.Kilt.{
  DidIdentifier, WorkerDid, AiWorkerCredential, Pallet, generate_did, Error,
  issue_worker_credential, revoke_worker_credential, ModelId, verify_worker_credential,
  verify_status, status_allows, is_expired,
}
use qxchain.Kilt.Invariant.{IsValid}
use qxchain.Kilt.Outcomes.{issue_worker_credential_cases, verify_status_cases, new_credential}

module _ {AccountId : Type 0} ⦃account_key : Key AccountId⦄ (F : Frame AccountId) where
  open F use {
    get, insert, iter, get-insert, get-remove, iter-get, ensure_root, ensure_signed, Origin,
  }

  -- No two accounts have one DID: the hash has no collision in its first 32 bytes.
  pub record NoCollision : Type 0 where
    pub injective : (a b : AccountId) → generate_did F a ≡ generate_did F b → a ≡ b

  -- The scan of all workers finds the status of the one worker whose DID it is given.
  pub verify_status-worker :
      (now : ℕ) (s : Pallet F) (a : AccountId) (w : WorkerDid AccountId)
      → IsValid F s
      → NoCollision
      → get s.worker_dids a ≡ some w
      → verify_status F now (generate_did F a) (iter s.worker_dids) ≡ status_allows now w.status
  verify_status-worker now s a w v n h =
      elim (verify_status_cases F now (generate_did F a) (iter s.worker_dids)) [
        | inl (_, absent) ↦
            absurd (absent a w ((iter-get s.worker_dids a w).1 h) ((v.workers a w h).own_did))
        | inr (b, x, at, found, e) ↦
            let held = (iter-get s.worker_dids b x).0 at in
            let same : b ≡ a = n.injective b a (cc ((v.workers b x held).own_did)) in
            rw e (ground (arith, held, same, h))
      ]

  -- In a well-formed storage with no collision, the answer for the DID of a registered worker that
  -- has a credential is that the credential has not expired and the status of the worker allows it.
  pub verify_worker_credential-worker :
      (now : ℕ) (s : Pallet F) (a : AccountId) (w : WorkerDid AccountId) (c : AiWorkerCredential)
      → IsValid F s
      → NoCollision
      → get s.worker_dids a ≡ some w
      → get s.worker_credentials (generate_did F a) ≡ some c
      → verify_worker_credential F now s (generate_did F a)
        ≡ ok (if is_expired now c.expires_at then false else status_allows now w.status)
  unfolding verify_worker_credential
  verify_worker_credential-worker now s a w c v n hw hc =
      ground (arith, hc, verify_status-worker now s a w v n hw)

  -- A credential that root issues at block `now` to a registered worker, with at most 100 models,
  -- verifies at block `later` if `later` is not past `now` plus the period, saturated at the
  -- largest block number, and the status of the worker allows it; with no period it never expires.
  pub verify_worker_credential-issue :
      (now later : ℕ) (o : Origin) (models : List ModelId) (period : Option ℕ) (s : Pallet F)
      (a : AccountId) (w : WorkerDid AccountId)
      → IsValid F s
      → NoCollision
      → ensure_root o ≡ true
      → length models ≤ 100
      → get s.worker_dids a ≡ some w
      → let (r, t) = issue_worker_credential F now o (generate_did F a) models period s in
        (r ≡ ok tt)
        × (verify_worker_credential F later t (generate_did F a)
            ≡ ok (elim period [
              | none ↦ status_allows later w.status
              | some p ↦
                  if ltb (saturating_add now p) later then false else status_allows later w.status
            ]))
  unfolding verify_worker_credential
  verify_worker_credential-issue now later o models period s a w v n hr hm hw =
      let did = generate_did F a in
      rw (issue_worker_credential_cases, hr)
        (ground (
          arith,
          verify_status-worker later s a w v n hw,
          get-insert s.worker_credentials did (new_credential F now did models period s) did,
        ))

  -- After root revokes the credential of a DID, the DID has no credential, and the answer for every
  -- other DID is what it was.
  verify_worker_credential-revoke :
      (later : ℕ) (o : Origin) (did d : DidIdentifier) (s : Pallet F)
      → ensure_root o ≡ true
      → let (r, t) = revoke_worker_credential F o did s in
        (r ≡ ok tt)
        × (verify_worker_credential F later t did ≡ err (kilt Error.worker_credential_not_found))
        × (did ≢ d → verify_worker_credential F later t d ≡ verify_worker_credential F later s d)
  unfolding verify_worker_credential revoke_worker_credential
  verify_worker_credential-revoke later o did d s hr = (
    ground arith,
    ground (arith, get-remove s.worker_credentials did did),
    λ ne. ground (arith, get-remove s.worker_credentials did d),
  )

  -- The models of a credential play no part: a credential with any other list of models verifies as
  -- before, for every DID.
  pub verify_worker_credential-models :
      (now : ℕ) (s : Pallet F) (did d : DidIdentifier) (c : AiWorkerCredential)
      (models : List ModelId)
      → get s.worker_credentials did ≡ some c
      → verify_worker_credential F now
          (record s {
            worker_credentials = insert s.worker_credentials did (record c { models = models });
          })
          d
        ≡ verify_worker_credential F now s d
  unfolding verify_worker_credential
  verify_worker_credential-models now s did d c models h =
      ground (arith, h, get-insert s.worker_credentials did (record c { models = models }) d)
