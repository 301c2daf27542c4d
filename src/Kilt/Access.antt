-- ===== src/Kilt/Access.antt =====
-- Who may change what in the storage of pallets/pallet-qx-kilt-permissions/src/lib.rs.
use qxchain.Prelude.{ℕ, ◌≡◌, refl, inl, inr, some, false, List, [], ◌∷◌, arith, saturating_add}
use qxchain.Frame.{Frame, Key, bytes_key, ok}
use qxchain.Frame.Layer.{storage_layer-keeps}
use qxchain.Kilt.{
  Call, dispatch, run, DidIdentifier, WorkerDid, Pallet, generate_did, set_governance_did,
  create_worker_did, revoke_worker_credential, suspend_first, Config, get_worker_did,
}
use qxchain.Kilt.Invariant.{IsValid, dispatch-IsValid}
use mathlib.Core.Option
use qxchain.Kilt.Outcomes.{
  create_worker_did_cases, issue_worker_credential_cases, suspend_worker_cases, new_worker,
}

module _ {AccountId : Type 0} ⦃account_key : Key AccountId⦄ (F : Frame AccountId) where
  open F use {get, insert, iter, get-insert, ensure_root, ensure_signed, Origin}

  -- what a call without root leaves as it was
  pub record Untouched (s t : Pallet F) : Type 0 where
    pub governance : t.governance_did ≡ s.governance_did
    pub credentials : t.worker_credentials ≡ s.worker_credentials
    pub workers :
        (a : AccountId) (w : WorkerDid AccountId)
        → get s.worker_dids a ≡ some w
        → get t.worker_dids a ≡ some w

  pub Untouched-refl : (s : Pallet F) → Untouched s s
  Untouched-refl s = record { governance = refl; credentials = refl; workers = λ a w e. e }

  pub Untouched-trans : (r s t : Pallet F) → Untouched r s → Untouched s t → Untouched r t
  Untouched-trans r s t first rest = record {
    governance = rw (rest.governance, first.governance);
    credentials = rw (rest.credentials, first.credentials);
    workers = λ a w e. rest.workers a w (first.workers a w e);
  }

  create_worker_did-Untouched :
      (now : ℕ) (o : Origin) (name description : List ℕ) (s : Pallet F)
      → Untouched s (create_worker_did F now o name description s).1
  create_worker_did-Untouched now o name description s =
      elim (create_worker_did_cases F now o name description s) [
        | inl (_, e) ↦ rw e (Untouched-refl s)
        | inr (who, _, c) ↦ rw c.result (record {
          governance = refl;
          credentials = refl;
          workers = λ a w e. ground (
            arith,
            c.new,
            get-insert s.worker_dids who (new_worker F now who name description) a,
          );
        })
      ]

  -- A call without the root origin changes no credential, no governance DID and no existing worker.
  pub dispatch-Untouched :
      (config : Config) (now : ℕ) (o : Origin) (c : Call) (s : Pallet F)
      → ensure_root o ≡ false
      → Untouched s (dispatch F config now o c s).1
  unfolding dispatch set_governance_did revoke_worker_credential
  dispatch-Untouched config now o (Call.set_governance_did did) s h =
      storage_layer-keeps F (Untouched s) (set_governance_did F o did) s (Untouched-refl s)
        (ground (arith, Untouched-refl s))
  dispatch-Untouched config now o (Call.create_worker_did name description) s h =
      storage_layer-keeps F (Untouched s) _ s (Untouched-refl s)
        (create_worker_did-Untouched now o name description s)
  dispatch-Untouched config now o (Call.issue_worker_credential did models period) s h =
      storage_layer-keeps F (Untouched s) _ s (Untouched-refl s)
        (rw (issue_worker_credential_cases, h) (Untouched-refl s))
  dispatch-Untouched config now o (Call.revoke_worker_credential did) s h =
      storage_layer-keeps F (Untouched s) (revoke_worker_credential F o did) s (Untouched-refl s)
        (ground (arith, Untouched-refl s))
  dispatch-Untouched config now o (Call.suspend_worker did duration) s h =
      storage_layer-keeps F (Untouched s) _ s (Untouched-refl s)
        (rw (suspend_worker_cases, h) (Untouched-refl s))

  -- no call of the history has the root origin
  abbrev pub NoRoot : {A : Type 0} → List (ℕ × Origin × A) → Type 0
  NoRoot [] = Unit
  NoRoot ((_, o, _) ∷ cs) = (ensure_root o ≡ false) × NoRoot cs

  pub run-Untouched :
      (config : Config) (cs : List (ℕ × Origin × Call)) (s : Pallet F)
      → NoRoot cs
      → Untouched s (run F config cs s)
  unfolding run
  run-Untouched config [] s h = Untouched-refl s
  run-Untouched config ((now, o, c) ∷ cs) s h =
      let t = (dispatch F config now o c s).1 in
      Untouched-trans s t (run F config cs t) (dispatch-Untouched config now o c s h.0)
        (run-Untouched config cs t h.1)

  account_to_did-suspend_first :
      (did : DidIdentifier) (until : ℕ) (l : List (AccountId × WorkerDid AccountId)) (s : Pallet F)
      → (suspend_first F did until l s).account_to_did ≡ s.account_to_did
  unfolding suspend_first
  account_to_did-suspend_first did until [] s = refl
  account_to_did-suspend_first did until ((a, w) ∷ l) s =
      ground (arith, account_to_did-suspend_first did until l s)

  create_worker_did-HasDid :
      (now : ℕ) (o : Origin) (name description : List ℕ) (s : Pallet F) (a : AccountId)
      (d : DidIdentifier)
      → IsValid F s
      → get s.account_to_did a ≡ some d
      → get (create_worker_did F now o name description s).1.account_to_did a ≡ some d
  create_worker_did-HasDid now o name description s a d v h =
      elim (create_worker_did_cases F now o name description s) [
        | inl (_, e) ↦ rw e h
        | inr (who, _, c) ↦ rw c.result (
            ground (
              arith,
              c.new,
              v.reverse a,
              v.reverse who,
              get-insert s.account_to_did who (generate_did F who) a,
            ))
      ]

  pub dispatch-HasDid :
      (config : Config) (now : ℕ) (o : Origin) (c : Call) (s : Pallet F) (a : AccountId)
      (d : DidIdentifier)
      → IsValid F s
      → get s.account_to_did a ≡ some d
      → get (dispatch F config now o c s).1.account_to_did a ≡ some d
  unfolding dispatch set_governance_did revoke_worker_credential
  dispatch-HasDid config now o (Call.set_governance_did did) s a d v h =
      storage_layer-keeps F (λ t. get t.account_to_did a ≡ some d) (set_governance_did F o did) s h
        (ground arith)
  dispatch-HasDid config now o (Call.create_worker_did name description) s a d v h =
      storage_layer-keeps F (λ t. get t.account_to_did a ≡ some d) _ s h
        (create_worker_did-HasDid now o name description s a d v h)
  dispatch-HasDid config now o (Call.issue_worker_credential did models period) s a d v h =
      storage_layer-keeps F (λ t. get t.account_to_did a ≡ some d) _ s h
        (rw issue_worker_credential_cases (ground arith))
  dispatch-HasDid config now o (Call.revoke_worker_credential did) s a d v h =
      storage_layer-keeps F (λ t. get t.account_to_did a ≡ some d)
        (revoke_worker_credential F o did) s h (ground arith)
  dispatch-HasDid config now o (Call.suspend_worker did duration) s a d v h =
      storage_layer-keeps F (λ t. get t.account_to_did a ≡ some d) _ s h
        (rw suspend_worker_cases (
          ground (
            arith,
            account_to_did-suspend_first did
                (saturating_add now (Option.get_or duration config.worker_suspension_period))
                (iter s.worker_dids) s,
          )))

  run-HasDid :
      (config : Config) (cs : List (ℕ × Origin × Call)) (s : Pallet F) (a : AccountId)
      (d : DidIdentifier)
      → IsValid F s
      → get s.account_to_did a ≡ some d
      → get (run F config cs s).account_to_did a ≡ some d
  unfolding run
  run-HasDid config [] s a d v h = h
  run-HasDid config ((now, o, c) ∷ cs) s a d v h =
      run-HasDid config cs (dispatch F config now o c s).1 a d
        (dispatch-IsValid F config now o c s v) (dispatch-HasDid config now o c s a d v h)

  -- In a well-formed storage the DID of an account is for life: whatever calls are dispatched, with
  -- whatever origins, `get_worker_did` goes on returning the DID that it once returned.
  pub get_worker_did-run :
      (config : Config) (cs : List (ℕ × Origin × Call)) (s : Pallet F) (a : AccountId)
      (d : DidIdentifier)
      → IsValid F s
      → get_worker_did F s a ≡ ok d
      → get_worker_did F (run F config cs s) a ≡ ok d
  unfolding get_worker_did
  get_worker_did-run config cs s a d v h = rw (run-HasDid config cs s a d v (ground arith))
