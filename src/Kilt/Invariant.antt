-- ===== src/Kilt/Invariant.antt =====
-- The well-formedness of the storage of pallets/pallet-qx-kilt-permissions/src/lib.rs, under
-- every call.
use qxchain.Prelude.{
  ℕ, ◌≤◌, ◌≡◌, refl, ◌≢◌, inl, inr, Option, none, some, List, [], ◌∷◌, arith, length,
  saturating_add,
}
use mathlib.Core.Option
use qxchain.Frame.{Frame, Key, bytes_key}
use qxchain.Frame.Layer.{storage_layer-keeps}
use qxchain.Kilt.{
  Call, dispatch, run, genesis, DidIdentifier, WorkerDid, AiWorkerCredential, CredentialStatus,
  revoked, suspended, Pallet, generate_did, set_governance_did, create_worker_did,
  issue_worker_credential, revoke_worker_credential, suspend_first, suspend_worker, Config, ModelId,
}
use qxchain.Kilt.Outcomes.{
  created, issued, suspends, create_worker_did_cases, issue_worker_credential_cases,
  suspend_worker_cases, new_worker, new_credential, with_status, suspend_first_cases,
}

module _ {AccountId : Type 0} ⦃account_key : Key AccountId⦄ (F : Frame AccountId) where
  open F use {get, insert, iter, get-empty, get-insert, get-remove, iter-get, try_from_lem, Origin}

  -- what is known of the entry of an account
  pub record IsWorker (account : AccountId) (w : WorkerDid AccountId) : Type 0 where
    pub own_did : w.did ≡ generate_did F account
    pub own_account : w.account ≡ account
    pub not_revoked : w.status ≢ revoked
    pub name_fits : length w.metadata.name ≤ 128
    pub description_fits : length w.metadata.description ≤ 512

  pub record IsCredential (did : DidIdentifier) (c : AiWorkerCredential) : Type 0 where
    pub own_subject : c.subject ≡ did
    pub models_fit : length c.models ≤ 100

  abbrev pub did_of : Option (WorkerDid AccountId) → Option DidIdentifier
  did_of none = none
  did_of (some w) = some w.did

  pub record IsValid (s : Pallet F) : Type 0 where
    pub workers :
        (a : AccountId) (w : WorkerDid AccountId) → get s.worker_dids a ≡ some w → IsWorker a w
    pub credentials :
        (d : DidIdentifier) (c : AiWorkerCredential)
        → get s.worker_credentials d ≡ some c
        → IsCredential d c
    -- the reverse map holds the DID of each worker, and no other
    pub reverse : (a : AccountId) → get s.account_to_did a ≡ did_of (get s.worker_dids a)

  created-IsValid :
      (now : ℕ) (who : AccountId) (name description : List ℕ) (s : Pallet F)
      → length name ≤ 128
      → length description ≤ 512
      → IsValid s
      → IsValid (created F now who name description s)
  created-IsValid now who name description s hn hd v = record {
    workers = λ a w e. ground (
      arith,
      v.workers a w,
      get-insert s.worker_dids who (new_worker F now who name description) a,
    );
    credentials = v.credentials;
    reverse = λ a. ground (
      arith,
      v.reverse a,
      get-insert s.worker_dids who (new_worker F now who name description) a,
      get-insert s.account_to_did who (generate_did F who) a,
    );
  }

  issued-IsValid :
      (now : ℕ) (did : DidIdentifier) (models : List ModelId) (period : Option ℕ) (s : Pallet F)
      → length models ≤ 100
      → IsValid s
      → IsValid (issued F now did models period s)
  issued-IsValid now did models period s h v = record {
    workers = v.workers;
    credentials = λ d c e. ground (
      arith,
      v.credentials d c,
      get-insert s.worker_credentials did (new_credential F now did models period s) d,
    );
    reverse = v.reverse;
  }

  with_status-IsValid :
      (a : AccountId) (w : WorkerDid AccountId) (status : CredentialStatus) (s : Pallet F)
      → get s.worker_dids a ≡ some w
      → status ≢ revoked
      → IsValid s
      → IsValid (with_status F s a w status)
  with_status-IsValid a w status s e h v = record {
    workers = λ b x p. ground (
      arith,
      v.workers b x,
      v.workers a w e,
      get-insert s.worker_dids a (record w { status = status }) b,
    );
    credentials = v.credentials;
    reverse = λ b. ground (
      arith,
      v.reverse b,
      v.reverse a,
      get-insert s.worker_dids a (record w { status = status }) b,
    );
  }

  suspend_first-IsValid :
      (did : DidIdentifier) (until : ℕ) (s : Pallet F)
      → IsValid s
      → IsValid (suspend_first F did until (iter s.worker_dids) s)
  suspend_first-IsValid did until s v =
      elim (suspend_first_cases F did until (iter s.worker_dids) s) [
        | inl (e, _) ↦ rw e v
        | inr (a, w, at, _, e) ↦
            rw e (with_status-IsValid a w (suspended until) s ((iter-get _ a w).0 at) (λ q. cc) v)
      ]

  events-IsValid :
      (s t : Pallet F)
      → t.worker_dids ≡ s.worker_dids
      → t.worker_credentials ≡ s.worker_credentials
      → t.account_to_did ≡ s.account_to_did
      → IsValid s
      → IsValid t
  events-IsValid s t p q r v = record {
    workers = λ a w e. v.workers a w (rw (← p) e);
    credentials = λ d c e. v.credentials d c (rw (← q) e);
    reverse = λ a. rw (p, r) (v.reverse a);
  }

  create_worker_did-IsValid :
      (now : ℕ) (o : Origin) (name description : List ℕ) (s : Pallet F)
      → IsValid s
      → IsValid (create_worker_did F now o name description s).1
  create_worker_did-IsValid now o name description s v =
      elim (create_worker_did_cases F now o name description s) [
        | inl (_, e) ↦ rw e v
        | inr (who, _, c) ↦
            rw c.result
              (created-IsValid now who name description s c.name_fits c.description_fits v)
      ]

  issue_worker_credential-IsValid :
      (now : ℕ) (o : Origin) (did : DidIdentifier) (models : List ModelId) (period : Option ℕ)
      (s : Pallet F)
      → IsValid s
      → IsValid (issue_worker_credential F now o did models period s).1
  issue_worker_credential-IsValid now o did models period s v =
      rw issue_worker_credential_cases (ground (arith, issued-IsValid now did models period s))

  revoke_worker_credential-IsValid :
      (o : Origin) (did : DidIdentifier) (s : Pallet F)
      → IsValid s
      → IsValid (revoke_worker_credential F o did s).1
  unfolding revoke_worker_credential
  revoke_worker_credential-IsValid o did s v = record {
    workers = λ a w e. ground (arith, v.workers a w);
    credentials = λ d c e. ground (arith, v.credentials d c, get-remove s.worker_credentials did d);
    reverse = λ a. ground (arith, v.reverse a);
  }

  pub suspends-IsValid :
      (did : DidIdentifier) (until : ℕ) (s : Pallet F)
      → IsValid s
      → IsValid (suspends F did until s)
  suspends-IsValid did until s v =
      events-IsValid (suspend_first F did until (iter s.worker_dids) s) (suspends F did until s)
        refl refl refl (suspend_first-IsValid did until s v)

  suspend_worker-IsValid :
      (config : Config) (now : ℕ) (o : Origin) (did : DidIdentifier) (duration : Option ℕ)
      (s : Pallet F)
      → IsValid s
      → IsValid (suspend_worker F config now o did duration s).1
  suspend_worker-IsValid config now o did duration s v =
      let until = saturating_add now (Option.get_or duration config.worker_suspension_period) in
      rw suspend_worker_cases (ground (arith, v, suspends-IsValid did until s v))

  -- Every call of the pallet keeps the storage well-formed, whoever signs it and however it ends.
  pub dispatch-IsValid :
      (config : Config) (now : ℕ) (o : Origin) (c : Call) (s : Pallet F)
      → IsValid s
      → IsValid (dispatch F config now o c s).1
  unfolding dispatch set_governance_did
  dispatch-IsValid config now o (Call.set_governance_did did) s v =
      storage_layer-keeps F IsValid (set_governance_did F o did) s v
        (ground (arith, v, events-IsValid s (set_governance_did F o did s).1))
  dispatch-IsValid config now o (Call.create_worker_did name description) s v =
      storage_layer-keeps F IsValid _ s v (create_worker_did-IsValid now o name description s v)
  dispatch-IsValid config now o (Call.issue_worker_credential did models period) s v =
      storage_layer-keeps F IsValid _ s v
        (issue_worker_credential-IsValid now o did models period s v)
  dispatch-IsValid config now o (Call.revoke_worker_credential did) s v =
      storage_layer-keeps F IsValid _ s v (revoke_worker_credential-IsValid o did s v)
  dispatch-IsValid config now o (Call.suspend_worker did duration) s v =
      storage_layer-keeps F IsValid _ s v (suspend_worker-IsValid config now o did duration s v)

  -- After any history of calls from a well-formed storage it is well-formed.
  pub run-IsValid :
      (config : Config) (cs : List (ℕ × Origin × Call)) (s : Pallet F)
      → IsValid s
      → IsValid (run F config cs s)
  unfolding run
  run-IsValid config [] s v = v
  run-IsValid config ((now, o, c) ∷ cs) s v =
      run-IsValid config cs (dispatch F config now o c s).1 (dispatch-IsValid config now o c s v)

  pub genesis-IsValid : IsValid (genesis F)
  unfolding genesis
  genesis-IsValid = record {
    workers = λ a w h. absurd (ground (arith, get-empty {V = WorkerDid AccountId} a, h));
    credentials = λ d c h. absurd (ground (arith, get-empty {V = AiWorkerCredential} d, h));
    reverse =
        λ a. ground (arith, get-empty {V = DidIdentifier} a, get-empty {V = WorkerDid AccountId} a);
  }
