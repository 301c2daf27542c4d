-- ===== src/Kilt/Order.antt =====
-- The loops over all workers of pallets/pallet-qx-kilt-permissions/src/lib.rs go through a storage
-- map in an order that is not specified, and stop at the first match. Nodes have to agree all the
-- same.
use qxchain.Prelude.{
  ℕ, ◌≡◌, refl, inl, inr, Option, some, List, [], ◌∷◌, arith, ap, ◌∙◌, sym, saturating_add,
}
use mathlib.Core.Option
use qxchain.Frame.{Frame, Key, bytes_key}
use qxchain.Frame.Layer.{storage_layer-ext}
use qxchain.Frame.Order.{Order, reordered}
use qxchain.Kilt.{
  Config, Pallet, DidIdentifier, generate_did, WorkerDid, Call, dispatch, run, suspend_first,
  suspend_worker, verify_status, verify_worker_credential, set_governance_did, create_worker_did,
  issue_worker_credential, revoke_worker_credential,
}
use qxchain.Kilt.Invariant.{IsValid, dispatch-IsValid, run-IsValid}
use qxchain.Kilt.Credentials.{NoCollision}
use qxchain.Kilt.Outcomes.{suspend_first_cases, verify_status_cases, suspend_worker_cases}

module _ {AccountId : Type 0} ⦃account_key : Key AccountId⦄ (F : Frame AccountId) (O : Order F)
    (n : NoCollision F) where
  open F use {get, iter, iter-get, Origin}

  abbrev G : Frame AccountId
  G = reordered F O

  -- two workers with one DID are one worker
  one_worker :
      (s : Pallet F) (did : DidIdentifier) (a b : AccountId) (w x : WorkerDid AccountId)
      → IsValid F s
      → get s.worker_dids a ≡ some w
      → get s.worker_dids b ≡ some x
      → w.did ≡ did
      → x.did ≡ did
      → (a ≡ b) × (w ≡ x)
  one_worker s did a b w x v hw hx e f =
      let same : a ≡ b =
        n.injective a b (cc ((v.workers a w hw).own_did, (v.workers b x hx).own_did)) in
      (same, ground (arith, same, hw, hx))

  suspend_first-order :
      (did : DidIdentifier) (until : ℕ) (s : Pallet F)
      → IsValid F s
      → suspend_first F did until (iter s.worker_dids) s
        ≡ suspend_first G did until (O.iter s.worker_dids) s
  suspend_first-order did until s v =
      elim (suspend_first_cases F did until (iter s.worker_dids) s) [
        | inl (e, absent) ↦ elim (suspend_first_cases G did until (O.iter s.worker_dids) s) [
          | inl (f, _) ↦ e ∙ sym f
          | inr (b, x, at, found, f) ↦ absurd (
              absent b x ((iter-get s.worker_dids b x).1 ((O.iter-get s.worker_dids b x).0 at))
                found)
        ]
        | inr (a, w, at, found, e) ↦
            elim (suspend_first_cases G did until (O.iter s.worker_dids) s) [
              | inl (f, absent) ↦ absurd (
                  absent a w ((O.iter-get s.worker_dids a w).1 ((iter-get s.worker_dids a w).0 at))
                    found)
              | inr (b, x, at', found', f) ↦
                  let (p, q) =
                    one_worker s did a b w x v ((iter-get s.worker_dids a w).0 at)
                      ((O.iter-get s.worker_dids b x).0 at') found found' in
                  e ∙ (cc (p, q)) ∙ sym f
            ]
      ]

  verify_status-order :
      (now : ℕ) (did : DidIdentifier) (s : Pallet F)
      → IsValid F s
      → verify_status F now did (iter s.worker_dids)
        ≡ verify_status G now did (O.iter s.worker_dids)
  verify_status-order now did s v = elim (verify_status_cases F now did (iter s.worker_dids)) [
    | inl (e, absent) ↦ elim (verify_status_cases G now did (O.iter s.worker_dids)) [
      | inl (f, _) ↦ e ∙ sym f
      | inr (b, x, at, found, f) ↦
          absurd (
            absent b x ((iter-get s.worker_dids b x).1 ((O.iter-get s.worker_dids b x).0 at)) found)
    ]
    | inr (a, w, at, found, e) ↦ elim (verify_status_cases G now did (O.iter s.worker_dids)) [
      | inl (f, absent) ↦
          absurd (
            absent a w ((O.iter-get s.worker_dids a w).1 ((iter-get s.worker_dids a w).0 at)) found)
      | inr (b, x, at', found', f) ↦
          let (p, q) =
            one_worker s did a b w x v ((iter-get s.worker_dids a w).0 at)
              ((O.iter-get s.worker_dids b x).0 at') found found' in
          e ∙ (cc (q)) ∙ sym f
    ]
  ]

  verify_worker_credential-order :
      (now : ℕ) (did : DidIdentifier) (s : Pallet F)
      → IsValid F s
      → verify_worker_credential F now s did ≡ verify_worker_credential G now s did
  unfolding verify_worker_credential
  verify_worker_credential-order now did s v = ground (arith, verify_status-order now did s v)

  suspend_worker-order :
      (config : Config) (now : ℕ) (o : Origin) (did : DidIdentifier) (duration : Option ℕ)
      (s : Pallet F)
      → IsValid F s
      → suspend_worker F config now o did duration s ≡ suspend_worker G config now o did duration s
  suspend_worker-order config now o did duration s v =
      let until = saturating_add now (Option.get_or duration config.worker_suspension_period) in
      rw (suspend_worker_cases, suspend_worker_cases, suspend_first-order did until s v) refl

  dispatch-order :
      (config : Config) (now : ℕ) (o : Origin) (c : Call) (s : Pallet F)
      → IsValid F s
      → dispatch F config now o c s ≡ dispatch G config now o c s
  unfolding dispatch set_governance_did create_worker_did issue_worker_credential
      revoke_worker_credential generate_did
  dispatch-order config now o (Call.set_governance_did did) s v = refl
  dispatch-order config now o (Call.create_worker_did name description) s v = refl
  dispatch-order config now o (Call.issue_worker_credential did models period) s v = refl
  dispatch-order config now o (Call.revoke_worker_credential did) s v = refl
  dispatch-order config now o (Call.suspend_worker did duration) s v =
      storage_layer-ext F (suspend_worker F config now o did duration)
        (suspend_worker G config now o did duration) s
        (suspend_worker-order config now o did duration s v)

  run-order :
      (config : Config) (cs : List (ℕ × Origin × Call)) (s : Pallet F)
      → IsValid F s
      → run F config cs s ≡ run G config cs s
  unfolding run
  run-order config [] s v = refl
  run-order config ((now, o, c) ∷ cs) s v =
      run-order config cs (dispatch F config now o c s).1 (dispatch-IsValid F config now o c s v)
      ∙ ap (λ r. run G config cs r.1) (dispatch-order config now o c s v)

  -- Nodes agree whatever the order in which each goes through the storage map of the workers: if no
  -- two accounts have one DID, then from a well-formed storage any history of calls leaves equal
  -- storages, events included, and every credential is verified alike, at every block.
  pub run-reordered :
      (config : Config) (cs : List (ℕ × Origin × Call)) (s : Pallet F) (now : ℕ)
      (did : DidIdentifier)
      → IsValid F s
      → (run F config cs s ≡ run (reordered F O) config cs s)
        × (verify_worker_credential F now (run F config cs s) did
            ≡ verify_worker_credential (reordered F O) now (run (reordered F O) config cs s) did)
  run-reordered config cs s now did v =
      let e = run-order config cs s v in
      (
        e,
        verify_worker_credential-order now did (run F config cs s) (run-IsValid F config cs s v)
            ∙ ap (λ t. verify_worker_credential G now t did) e,
      )
