-- ===== src/Kilt/Outcomes.antt =====
-- What each call of pallets/pallet-qx-kilt-permissions/src/lib.rs does, branch by branch.
use qxchain.Prelude.{
  ℕ, ◌≤◌, ◌≡◌, refl, ◌≢◌, ◌⊎◌, inl, inr, Option, none, some, List, [], ◌∷◌, ◌++◌, arith, length,
  true, leb, saturating_add, if◌then◌else◌, Elem, if_pos, if_neg,
}
use mathlib.Core.Option
use qxchain.Errors.{bad_origin, kilt}
use qxchain.Frame.{Frame, Key, bytes_key, ok, err}
use qxchain.Kilt.{
  DidIdentifier, WorkerDid, AiWorkerCredential, CredentialStatus, active, suspended, Pallet,
  generate_did, Error, worker_did_created, create_worker_did, issue_worker_credential,
  suspend_first, suspend_worker, Config, ModelId, verify_status, status_allows,
  worker_credential_issued, worker_suspended,
}

module _ {AccountId : Type 0} ⦃account_key : Key AccountId⦄ (F : Frame AccountId) where
  open F use {get, insert, remove, iter, ensure_signed, ensure_root, try_from, try_from_lem, Origin}

  abbrev pub new_worker : ℕ → AccountId → List ℕ → List ℕ → WorkerDid AccountId
  new_worker now who name description = record {
    did = generate_did F who;
    account = who;
    metadata = record { name = name; description = description; registered_at = now };
    status = active;
  }

  abbrev pub created : ℕ → AccountId → List ℕ → List ℕ → Pallet F → Pallet F
  created now who name description s = record s {
    worker_dids = insert s.worker_dids who (new_worker now who name description);
    account_to_did = insert s.account_to_did who (generate_did F who);
    events = s.events ++ worker_did_created who (generate_did F who) ∷ [];
  }

  pub record Creates (now : ℕ) (o : Origin) (name description : List ℕ) (s s' : Pallet F)
      (who : AccountId) : Type 0 where
    pub signer : ensure_signed o ≡ some who
    pub new : get s.worker_dids who ≡ none
    pub name_fits : length name ≤ 128
    pub description_fits : length description ≤ 512
    pub result : s' ≡ created now who name description s

  -- The call failed with nothing written, or it wrote the entry of a new worker.
  pub create_worker_did_cases :
      (now : ℕ) (o : Origin) (name description : List ℕ) (s : Pallet F)
      → let (r, s') = create_worker_did F now o name description s in
        ((r ≢ ok tt) × (s' ≡ s))
        ⊎ ((who : AccountId) × (r ≡ ok tt) × Creates now o name description s s' who)
  unfolding create_worker_did
  create_worker_did_cases now o name description s =
      ground (arith, try_from_lem 128 name, try_from_lem 512 description)

  abbrev pub new_credential :
      ℕ → DidIdentifier → List ModelId → Option ℕ → Pallet F → AiWorkerCredential
  new_credential now did models period s = record {
    issuer = s.governance_did;
    subject = did;
    models = models;
    issued_at = now;
    expires_at = Option.map (saturating_add now) period;
  }

  abbrev pub issued : ℕ → DidIdentifier → List ModelId → Option ℕ → Pallet F → Pallet F
  issued now did models period s = record s {
    worker_credentials = insert s.worker_credentials did (new_credential now did models period s);
    events = s.events ++ worker_credential_issued did (Option.map (saturating_add now) period) ∷ [];
  }

  pub issue_worker_credential_cases :
      (now : ℕ) (o : Origin) (did : DidIdentifier) (models : List ModelId) (period : Option ℕ)
      (s : Pallet F)
      → issue_worker_credential F now o did models period s ≡ (
          if ensure_root o
          then (if leb (length models) 100
              then (ok tt, issued now did models period s)
              else (err (kilt Error.invalid_bounded_vec), s))
          else (err bad_origin, s))
  unfolding issue_worker_credential
  issue_worker_credential_cases now o did models period s = ground (arith, try_from_lem 100 models)

  abbrev pub suspends : DidIdentifier → ℕ → Pallet F → Pallet F
  suspends did until s =
      let s' = suspend_first F did until (iter s.worker_dids) s in
      record s' { events = s'.events ++ worker_suspended did until ∷ [] }

  pub suspend_worker_cases :
      (config : Config) (now : ℕ) (o : Origin) (did : DidIdentifier) (duration : Option ℕ)
      (s : Pallet F)
      → suspend_worker F config now o did duration s ≡ (
          if ensure_root o
          then (
            ok tt,
            suspends did
                (saturating_add now (Option.get_or duration config.worker_suspension_period))
                s,
          )
          else (err bad_origin, s))
  unfolding suspend_worker
  suspend_worker_cases config now o did duration s = ground arith

  -- the entry of a worker with another status
  abbrev pub with_status : Pallet F → AccountId → WorkerDid AccountId → CredentialStatus → Pallet F
  with_status s a w status = record s {
    worker_dids = insert s.worker_dids a (record w { status = status });
  }

  abbrev pub NoWorker : DidIdentifier → List (AccountId × WorkerDid AccountId) → Type 0
  NoWorker did l = (a : AccountId) (w : WorkerDid AccountId) → Elem (a, w) l → w.did ≢ did

  -- The loop changes the first entry with the DID, or nothing if there is none.
  pub suspend_first_cases :
      (did : DidIdentifier) (until : ℕ) (l : List (AccountId × WorkerDid AccountId)) (s : Pallet F)
      → ((suspend_first F did until l s ≡ s) × NoWorker did l)
        ⊎ ((a : AccountId) × (w : WorkerDid AccountId) × Elem (a, w) l
            × (w.did ≡ did)
            × (suspend_first F did until l s ≡ with_status s a w (suspended until)))
  unfolding suspend_first
  suspend_first_cases did until [] s = inl (refl, λ a w h. absurd h)
  suspend_first_cases did until ((a, w) ∷ l) s = elim (bytes_key.dec w.did did) [
    | yes p ↦ inr (a, w, inl refl, p, rw (if_pos _ p))
    | no p ↦ elim (suspend_first_cases did until l s) [
      | inl (e, none_left) ↦ inl (rw (if_neg _ p) e, λ b x h. ground (arith, none_left b x))
      | inr (b, x, at, found, e) ↦ inr (b, x, inr at, found, rw (if_neg _ p) e)
    ]
  ]

  -- The verdict is that of the first entry with the DID, and favourable if there is none.
  pub verify_status_cases :
      (now : ℕ) (did : DidIdentifier) (l : List (AccountId × WorkerDid AccountId))
      → ((verify_status F now did l ≡ true) × NoWorker did l)
        ⊎ ((a : AccountId) × (w : WorkerDid AccountId) × Elem (a, w) l
            × (w.did ≡ did)
            × (verify_status F now did l ≡ status_allows now w.status))
  unfolding verify_status
  verify_status_cases now did [] = inl (refl, λ a w h. absurd h)
  verify_status_cases now did ((a, w) ∷ l) = elim (bytes_key.dec w.did did) [
    | yes p ↦ inr (a, w, inl refl, p, rw (if_pos _ p))
    | no p ↦ elim (verify_status_cases now did l) [
      | inl (e, none_left) ↦ inl (rw (if_neg _ p) e, λ b x h. ground (arith, none_left b x))
      | inr (b, x, at, found, e) ↦ inr (b, x, inr at, found, rw (if_neg _ p) e)
    ]
  ]
