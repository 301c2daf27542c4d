-- ===== src/Ai/Access.antt =====
-- Who may change the models of pallets/pallet-qx-ai/src/lib.rs.
use qxchain.Prelude.{ℕ, ◌≡◌, refl, inl, inr, false, arith}
use qxchain.Frame.{Frame, Key, nat_key, bytes_key}
use qxchain.Frame.Layer.{storage_layer-keeps_ok}
use qxchain.Ai.{KiltPermissions, Config, Pallet, Call, dispatch}
use qxchain.Ai.Outcomes.{submit_request_cases, submit_inference_cases}
use qxchain.Ai.Outcomes.Others.{update_ai_worker_status_cases, add_allowed_model_cases}

module _ {AccountId : Type 0} ⦃account_key : Key AccountId⦄ (F : Frame AccountId) where
  open F use {ensure_root, Origin}

  -- A call without the root origin changes no model.
  pub allowed_models-dispatch :
      (permissions : KiltPermissions AccountId) (config : Config) (now : ℕ) (o : Origin)
      (c : Call AccountId) (s : Pallet F)
      → ensure_root o ≡ false
      → (dispatch F permissions config now o c s).1.allowed_models ≡ s.allowed_models
  unfolding dispatch
  allowed_models-dispatch permissions config now o (Call.submit_request target prompt max_tokens) s
        h =
      storage_layer-keeps_ok F (λ t. t.allowed_models ≡ s.allowed_models) _ s refl
        (λ a done.
          elim (submit_request_cases F permissions config now o target prompt max_tokens s) [
            | inl failed ↦ absurd (failed done)
            | inr (who, did, _, e, r) ↦ rw e refl
          ])
  allowed_models-dispatch permissions config now o (Call.update_ai_worker_status online) s h =
      storage_layer-keeps_ok F (λ t. t.allowed_models ≡ s.allowed_models) _ s refl
        (λ a done. elim (update_ai_worker_status_cases F permissions o online s) [
          | inl failed ↦ absurd (failed done)
          | inr (who, did, _, e, r) ↦ rw e refl
        ])
  allowed_models-dispatch permissions config now o (Call.submit_inference id output) s h =
      storage_layer-keeps_ok F (λ t. t.allowed_models ≡ s.allowed_models) _ s refl
        (λ a done. elim (submit_inference_cases F permissions now o id output s) [
          | inl failed ↦ absurd (failed done)
          | inr (who, did, request, _, e, r) ↦ rw e refl
        ])
  allowed_models-dispatch permissions config now o (Call.add_allowed_model id name hash) s h =
      storage_layer-keeps_ok F (λ t. t.allowed_models ≡ s.allowed_models) _ s refl
        (λ a done. elim (add_allowed_model_cases F o id name hash s) [
          | inl failed ↦ absurd (failed done)
          | inr (_, e, r) ↦ absurd (ground (arith, h, r))
        ])
