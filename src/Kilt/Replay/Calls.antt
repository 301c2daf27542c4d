-- ===== src/Kilt/Replay/Calls.antt =====
-- Every call of pallets/pallet-qx-kilt-permissions/src/lib.rs, against the events that it deposits.
use qxchain.Prelude.{
  ℕ, ◌≡◌, inl, inr, Option, none, List, [], ◌∷◌, ◌++◌, arith, Option-cases, saturating_add,
}
use mathlib.Core.Option
use qxchain.Frame.{Frame, Key, bytes_key}
use qxchain.Frame.Layer.{storage_layer-keeps}
use qxchain.Kilt.{
  Config, Pallet, DidIdentifier, ModelId, suspended, generate_did, WorkerDid, AiWorkerCredential,
  Call, dispatch, run, genesis, set_governance_did, revoke_worker_credential,
  verify_worker_credential, status_allows, governance_did_set, worker_credential_revoked,
}
use qxchain.Kilt.Invariant.{IsValid, dispatch-IsValid, run-IsValid, genesis-IsValid}
use qxchain.Kilt.Credentials.{NoCollision}
use qxchain.Kilt.Outcomes.{
  created, new_worker, issued, new_credential, suspends, NoWorker, create_worker_did_cases,
  issue_worker_credential_cases, suspend_worker_cases, suspend_first_cases, verify_status_cases,
}
use qxchain.Kilt.Replay.{Book, empty_book, replay, replay-snoc, Tells, verify}

module _ {AccountId : Type 0} ⦃account_key : Key AccountId⦄ (F : Frame AccountId)
    (n : NoCollision F) where
  open F use {get, insert, iter, get-insert, get-remove, get-empty, iter-get, Origin}

  abbrev pub IsTold : Pallet F → Type 0
  IsTold s = Tells F s (replay s.events empty_book)

  created-IsTold :
      (now : ℕ) (who : AccountId) (name description : List ℕ) (s : Pallet F)
      → IsTold s
      → IsTold (created F now who name description s)
  created-IsTold now who name description s v = rw replay-snoc (record {
    dids = λ a. ground (arith, v.dids a, get-insert s.account_to_did who (generate_did F who) a);
    status = λ a. ground (
      arith,
      v.status a,
      n.injective who a,
      get-insert s.worker_dids who (new_worker F now who name description) a,
    );
    owners = λ d x h. elim (bytes_key.dec (generate_did F who) d) [
      | yes p ↦ (who, p)
      | no p ↦ v.owners d x (ground (arith, h, p))
    ];
    expiry = v.expiry;
  })

  issued-IsTold :
      (now : ℕ) (did : DidIdentifier) (models : List ModelId) (period : Option ℕ) (s : Pallet F)
      → IsTold s
      → IsTold (issued F now did models period s)
  issued-IsTold now did models period s v = rw replay-snoc (record {
    dids = v.dids;
    status = v.status;
    owners = v.owners;
    expiry = λ d. ground (
      arith,
      v.expiry d,
      get-insert s.worker_credentials did (new_credential F now did models period s) d,
    );
  })

  governed-IsTold :
      (did : DidIdentifier) (s : Pallet F)
      → IsTold s
      → IsTold (record s { governance_did = did; events = s.events ++ governance_did_set did ∷ [] })
  governed-IsTold did s v =
      rw replay-snoc
        (record { dids = v.dids; status = v.status; owners = v.owners; expiry = v.expiry })

  revoked-IsTold :
      (did : DidIdentifier) (s : Pallet F)
      → IsTold s
      → IsTold (record s {
        worker_credentials = F.remove s.worker_credentials did;
        events = s.events ++ worker_credential_revoked did ∷ [];
      })
  revoked-IsTold did s v = rw replay-snoc (record {
    dids = v.dids;
    status = v.status;
    owners = v.owners;
    expiry = λ d. ground (arith, v.expiry d, get-remove s.worker_credentials did d);
  })

  -- A DID that no entry has is told of as no worker's.
  status-NoWorker :
      (d : DidIdentifier) (s : Pallet F) (b : Book AccountId)
      → IsValid F s
      → Tells F s b
      → NoWorker F d (iter s.worker_dids)
      → b.status d ≡ none
  status-NoWorker d s b v t absent = elim (Option-cases (b.status d)) [
    | inl e ↦ e
    | inr (x, e) ↦
        let (a, own) = t.owners d x e in
        elim (Option-cases (get s.worker_dids a)) [
          | inl none_there ↦ absurd (ground (arith, t.status a, own, e, none_there))
          | inr (w, there) ↦ absurd (
              absent a w ((iter-get s.worker_dids a w).1 there)
                (ground (arith, (v.workers a w there).own_did, own)))
        ]
  ]

  suspends-IsTold :
      (did : DidIdentifier) (until : ℕ) (s : Pallet F)
      → IsValid F s
      → IsTold s
      → IsTold (suspends F did until s)
  suspends-IsTold did until s v t = elim (suspend_first_cases F did until (iter s.worker_dids) s) [
    | inl (e, absent) ↦
        let untold = status-NoWorker did s (replay s.events empty_book) v t absent in
        rw e (
          rw replay-snoc (record {
            dids = t.dids;
            status = λ a. ground (arith, t.status a, untold);
            owners = λ d x h. t.owners d x (ground (arith, h, untold));
            expiry = t.expiry;
          }))
    | inr (a, w, at, found, e) ↦
        let held = (iter-get s.worker_dids a w).0 at in
        let own = (v.workers a w held).own_did in
        let entry = record w { status = suspended until } in
        rw e (
          rw replay-snoc (record {
            dids = t.dids;
            status = λ c. ground (
              arith,
              t.status c,
              t.status a,
              held,
              found,
              own,
              n.injective a c,
              get-insert s.worker_dids a entry c,
            );
            owners = λ d x h. elim (bytes_key.dec did d) [
              | yes p ↦ (a, cc)
              | no p ↦ t.owners d x (ground (arith, h, p))
            ];
            expiry = t.expiry;
          }))
  ]

  dispatch-IsTold :
      (config : Config) (now : ℕ) (o : Origin) (c : Call) (s : Pallet F)
      → IsValid F s
      → IsTold s
      → IsTold (dispatch F config now o c s).1
  unfolding dispatch set_governance_did revoke_worker_credential
  dispatch-IsTold config now o (Call.set_governance_did did) s v t =
      storage_layer-keeps F IsTold (set_governance_did F o did) s t
        (ground (arith, t, governed-IsTold did s t))
  dispatch-IsTold config now o (Call.create_worker_did name description) s v t =
      storage_layer-keeps F IsTold _ s t
        (elim (create_worker_did_cases F now o name description s) [
          | inl (_, e) ↦ rw e t
          | inr (who, _, c) ↦ rw c.result (created-IsTold now who name description s t)
        ])
  dispatch-IsTold config now o (Call.issue_worker_credential did models period) s v t =
      storage_layer-keeps F IsTold _ s t (
        rw issue_worker_credential_cases
          (ground (arith, t, issued-IsTold now did models period s t)))
  dispatch-IsTold config now o (Call.revoke_worker_credential did) s v t =
      storage_layer-keeps F IsTold (revoke_worker_credential F o did) s t
        (ground (arith, t, revoked-IsTold did s t))
  dispatch-IsTold config now o (Call.suspend_worker did duration) s v t =
      let until = saturating_add now (Option.get_or duration config.worker_suspension_period) in
      storage_layer-keeps F IsTold _ s t
        (rw suspend_worker_cases (ground (arith, t, suspends-IsTold did until s v t)))

  run-IsTold :
      (config : Config) (cs : List (ℕ × Origin × Call)) (s : Pallet F)
      → IsValid F s
      → IsTold s
      → IsTold (run F config cs s)
  unfolding run
  run-IsTold config [] s v t = t
  run-IsTold config ((now, o, c) ∷ cs) s v t =
      run-IsTold config cs (dispatch F config now o c s).1 (dispatch-IsValid F config now o c s v)
        (dispatch-IsTold config now o c s v t)

  genesis_run-IsTold :
      (config : Config) (cs : List (ℕ × Origin × Call)) → IsTold (run F config cs (genesis F))
  unfolding genesis replay
  genesis_run-IsTold config cs = run-IsTold config cs (genesis F) (genesis-IsValid F) (record {
    dids = λ a. get-empty {V = DidIdentifier} a;
    status = λ a. ground (arith, get-empty {V = WorkerDid AccountId} a);
    owners = λ d x h. cc;
    expiry = λ d. ground (arith, get-empty {V = AiWorkerCredential} d);
  })

  told-verify :
      (now : ℕ) (s : Pallet F) (d : DidIdentifier) (b : Book AccountId)
      → IsValid F s
      → Tells F s b
      → verify_worker_credential F now s d ≡ verify now b d
  unfolding verify_worker_credential status_allows
  told-verify now s d b v t = elim (verify_status_cases F now d (iter s.worker_dids)) [
    | inl (e, absent) ↦ ground (arith, e, t.expiry d, status-NoWorker d s b v t absent)
    | inr (a, w, at, found, e) ↦
        let held = (iter-get s.worker_dids a w).0 at in
        ground (arith, e, t.expiry d, t.status a, held, found, (v.workers a w held).own_did)
  ]

  -- On a new chain with no collision of DIDs, after any history of calls, the events that were
  -- deposited decide every credential: for every DID, whether or not of a worker, and at every
  -- block, what `verify_worker_credential` answers is what the last expiry and the last status that
  -- the events tell of the DID give.
  pub verify_worker_credential-replay :
      (config : Config) (cs : List (ℕ × Origin × Call)) (now : ℕ) (d : DidIdentifier)
      → let s = run F config cs (genesis F) in
        verify_worker_credential F now s d ≡ verify now (replay s.events empty_book) d
  verify_worker_credential-replay config cs now d =
      let s = run F config cs (genesis F) in
      told-verify now s d (replay s.events empty_book)
        (run-IsValid F config cs (genesis F) (genesis-IsValid F)) (genesis_run-IsTold config cs)
