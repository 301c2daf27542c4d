-- ===== src/Ai/Outcomes/Others.antt =====
-- What `update_ai_worker_status` and `add_allowed_model` of pallets/pallet-qx-ai/src/lib.rs do, by
-- how they end.
use qxchain.Prelude.{
  ℕ, ◌≡◌, ap, ◌≢◌, ◌⊎◌, inl, inr, Bool, true, some, List, [], ◌∷◌, ◌++◌, arith, Option-cases,
}
use qxchain.Frame.{Frame, Key, nat_key, ok, Result-cases}
use qxchain.Ai.{
  KiltPermissions, Pallet, DidIdentifier, update_ai_worker_status, add_allowed_model,
  ai_worker_status_updated, model_added, AllowedModel,
}
use qxchain.Ai.Outcomes.{IsCredentialed}

module _ {AccountId : Type 0} ⦃account_key : Key AccountId⦄ (F : Frame AccountId) where
  open F use {insert, ensure_signed, ensure_root, Origin}

  abbrev pub updated : AccountId → Bool → Pallet F → Pallet F
  updated who online s = record s {
    ai_worker_status = insert s.ai_worker_status who online;
    events = s.events ++ ai_worker_status_updated who online ∷ [];
  }

  pub record Updates (permissions : KiltPermissions AccountId) (o : Origin) (who : AccountId)
      (did : DidIdentifier) : Type 0 where
    pub signer : ensure_signed o ≡ some who
    pub credential : IsCredentialed F permissions who did

  module _ (permissions : KiltPermissions AccountId) (o : Origin) (online : Bool)
      (s : Pallet F) where
    pub update_ai_worker_status_ok :
        (who : AccountId) (did : DidIdentifier)
        → Updates permissions o who did
        → update_ai_worker_status F permissions o online s ≡ (ok tt, updated who online s)
    unfolding update_ai_worker_status
    update_ai_worker_status_ok who did c = ground (arith, c)

    update_ai_worker_status_needs :
        (update_ai_worker_status F permissions o online s).0 ≡ ok tt
        → (who : AccountId) × (did : DidIdentifier) × Updates permissions o who did
    unfolding update_ai_worker_status
    update_ai_worker_status_needs h = elim (Option-cases (ensure_signed o)) [
      | inl e ↦ absurd (ground (arith, h, e))
      | inr (who, e) ↦ elim (Result-cases (permissions.get_worker_did who)) [
        | inl (x, n) ↦ absurd (ground (arith, h, e, n))
        | inr (did, d) ↦ (who, did, ground (arith, h, e, d))
      ]
    ]

    pub update_ai_worker_status_cases :
        let (r, t) = update_ai_worker_status F permissions o online s in
        (r ≢ ok tt)
        ⊎ ((who : AccountId) × (did : DidIdentifier) × (r ≡ ok tt)
            × (t ≡ updated who online s)
            × Updates permissions o who did)
    update_ai_worker_status_cases =
        elim (Result-cases (update_ai_worker_status F permissions o online s).0) [
          | inr (tt, h) ↦
              let (who, did, c) = update_ai_worker_status_needs h in
              inr (who, did, h, ap (λ x. x.1) (update_ai_worker_status_ok who did c), c)
          | inl (e, h) ↦ inl (λ p. cc)
        ]

  abbrev pub added : ℕ → List ℕ → List ℕ → Pallet F → Pallet F
  added id name hash s =
      let model : AllowedModel = record { model_name = name; model_hash = hash; active = true } in
      record s {
        allowed_models = insert s.allowed_models id model;
        events = s.events ++ model_added id name ∷ [];
      }

  pub add_allowed_model_cases :
      (o : Origin) (id : ℕ) (name hash : List ℕ) (s : Pallet F)
      → let (r, t) = add_allowed_model F o id name hash s in
        (r ≢ ok tt) ⊎ ((r ≡ ok tt) × (t ≡ added id name hash s) × (ensure_root o ≡ true))
  unfolding add_allowed_model
  add_allowed_model_cases o id name hash s = ground arith
