-- ===== src/Kilt/Onboarding.antt =====
-- A new worker of pallets/pallet-qx-kilt-permissions/src/lib.rs: it creates its DID, and root
-- issues a credential for it.
use qxchain.Prelude.{
  ℕ, ◌≤◌, ◌≡◌, Option, none, some, true, List, arith, ap, saturating_add, length, ◌∙◌,
}
use qxchain.Frame.{Frame, Key, bytes_key, ok}
use qxchain.Frame.Layer.{storage_layer_ok}
use qxchain.Frame.Maps.{get-insert_self}
use qxchain.Kilt.{
  Call, Config, ModelId, Pallet, generate_did, dispatch, create_worker_did, issue_worker_credential,
  get_worker_did, verify_worker_credential, status_allows,
}
use qxchain.Kilt.Outcomes.{created, issued, new_worker, issue_worker_credential_cases}
use qxchain.Kilt.Invariant.{IsValid}
use qxchain.Kilt.Credentials.{NoCollision, verify_worker_credential-issue}

module _ {AccountId : Type 0} ⦃account_key : Key AccountId⦄ (F : Frame AccountId) where
  open F use {get, ensure_root, signed, ensure_signed-signed, try_from_lem, Origin}

  pub dispatch-create_worker_did :
      (config : Config) (now : ℕ) (a : AccountId) (name description : List ℕ) (s : Pallet F)
      → get s.worker_dids a ≡ none
      → length name ≤ 128
      → length description ≤ 512
      → dispatch F config now (signed a) (Call.create_worker_did name description) s
        ≡ (ok tt, created F now a name description s)
  unfolding dispatch create_worker_did
  dispatch-create_worker_did config now a name description s new hn hd =
      let e : create_worker_did F now (signed a) name description s
          ≡ (ok tt, created F now a name description s) =
        ground (
          arith,
          ensure_signed-signed a,
          new,
          try_from_lem 128 name,
          try_from_lem 512 description,
        ) in
      storage_layer_ok F (create_worker_did F now (signed a) name description) s tt
        (ap (λ x. x.0) e)
      ∙ e

  pub dispatch-issue_worker_credential :
      (config : Config) (now : ℕ) (o : Origin) (a : AccountId) (models : List ModelId)
      (period : Option ℕ) (s : Pallet F)
      → ensure_root o ≡ true
      → length models ≤ 100
      → dispatch F config now o (Call.issue_worker_credential (generate_did F a) models period) s
        ≡ (ok tt, issued F now (generate_did F a) models period s)
  unfolding dispatch
  dispatch-issue_worker_credential config now o a models period s hr hm =
      let did = generate_did F a in
      let e : issue_worker_credential F now o did models period s
          ≡ (ok tt, issued F now did models period s) =
        rw (issue_worker_credential_cases, hr) (ground arith) in
      storage_layer_ok F (issue_worker_credential F now o did models period) s tt (ap (λ x. x.0) e)
      ∙ e

  module _ (now now' : ℕ) (o : Origin) (a : AccountId) (name description : List ℕ)
      (models : List ModelId) (period : ℕ) (s : Pallet F) where
    -- the storage after both calls
    abbrev pub onboarded : Pallet F
    onboarded =
        issued F now' (generate_did F a) models (some period) (created F now a name description s)

    pub get_worker_did-onboarded : get_worker_did F onboarded a ≡ ok (generate_did F a)
    unfolding get_worker_did
    get_worker_did-onboarded =
        ground (arith, get-insert_self F s.account_to_did a (generate_did F a))

    pub verify_worker_credential-onboarded :
        (later : ℕ)
        → IsValid F (created F now a name description s)
        → NoCollision F
        → ensure_root o ≡ true
        → length models ≤ 100
        → later ≤ saturating_add now' period
        → verify_worker_credential F later onboarded (generate_did F a) ≡ ok true
    unfolding status_allows
    verify_worker_credential-onboarded later v n hr hm low =
        let t = created F now a name description s in
        let issue =
          verify_worker_credential-issue F now' later o models (some period) t a
            (new_worker F now a name description) v n hr hm
            (get-insert_self F s.worker_dids a (new_worker F now a name description)) in
        let e : (issue_worker_credential F now' o (generate_did F a) models (some period) t).1
            ≡ onboarded =
          rw (issue_worker_credential_cases, hr) (ground arith) in
        ground (arith, issue.1, e, low)
