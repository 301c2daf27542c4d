-- ===== src/Runtime/Extrinsics/Idle.antt =====
-- The AI pallet under the extrinsics of runtime/src/lib.rs while no worker has a credential.
use qxchain.Prelude.{
  ℕ, ⊤, ◌≡◌, refl, ◌≢◌, inl, inr, none, true, false, Option, List, [], ◌∷◌, arith, ◌∙◌, ap,
}
use qxchain.Frame.{Frame, Key, nat_key, bytes_key, Exec, ok}
use qxchain.Frame.Layer.{storage_layer-keeps_ok}
use qxchain.Currency.{Currency}
use qxchain.Kilt
use qxchain.Kilt.{DidIdentifier}
use qxchain.Ai
use qxchain.Ai.Outcomes.{submit_request_cases, submit_inference_cases}
use qxchain.Ai.Outcomes.Others.{update_ai_worker_status_cases, add_allowed_model_cases}
use qxchain.Runtime.{
  RuntimeCall, qx_kilt_permissions, qx_ai, qx_faucet, State, dispatch, ai_config,
  kilt_permissions_impl,
}
use qxchain.Runtime.Extrinsics.{UncheckedExtrinsic, function, Executive, Extrinsics, run_extrinsics}
use qxchain.Runtime.Extrinsics.Authority.{NoSudo, NotSudo, Grants-NotSudo, apply_extrinsic-IsKept}

module _ {AccountId : Type 0} ⦃account_key : Key AccountId⦄ (F : Frame AccountId)
    (C : Currency AccountId) (account_id32 : List ℕ → AccountId) where
  open F use {get, Origin, ensure_root}

  -- no DID has a credential
  abbrev pub NoCredentials : State F C account_id32 → Type 0
  NoCredentials s = (did : DidIdentifier) → get s.kilt.worker_credentials did ≡ none

  unverified :
      (now : ℕ) (s : State F C account_id32) (did : DidIdentifier)
      → NoCredentials s
      → Kilt.verify_worker_credential F now s.kilt did ≢ ok true
  unfolding Kilt.verify_worker_credential
  unverified now s did n h = absurd (ground (arith, n did, h))

  -- A call that is refused leaves its pallet as it was.
  refused_lem :
      (m : Exec (Ai.Pallet F) ⊤) (p : Ai.Pallet F) → (m p).0 ≢ ok tt → (F.storage_layer m p).1 ≡ p
  refused_lem m p refused =
      storage_layer-keeps_ok F (λ q. q ≡ p) m p refl (λ a done. absurd (refused done))

  ai-idle :
      (now : ℕ) (o : Origin) (c : Ai.Call AccountId) (s : State F C account_id32)
      → ensure_root o ≡ false
      → NoCredentials s
      → (Ai.dispatch F (kilt_permissions_impl F C account_id32 now s) ai_config now o c s.ai).1
        ≡ s.ai
  unfolding Ai.dispatch
  ai-idle now o (Ai.Call.submit_request target prompt max_tokens) s h n =
      let permissions = kilt_permissions_impl F C account_id32 now s in
      refused_lem (Ai.submit_request F permissions ai_config now o target prompt max_tokens) s.ai
        (λ done.
          elim (submit_request_cases F permissions ai_config now o target prompt max_tokens s.ai) [
            | inl failed ↦ absurd (failed done)
            | inr (who, did, _, _, r) ↦ absurd (unverified now s did n r.credential.verifies)
          ])
  ai-idle now o (Ai.Call.update_ai_worker_status online) s h n =
      let permissions = kilt_permissions_impl F C account_id32 now s in
      refused_lem (Ai.update_ai_worker_status F permissions o online) s.ai (λ done.
        elim (update_ai_worker_status_cases F permissions o online s.ai) [
          | inl failed ↦ absurd (failed done)
          | inr (who, did, _, _, r) ↦ absurd (unverified now s did n r.credential.verifies)
        ])
  ai-idle now o (Ai.Call.submit_inference id output) s h n =
      let permissions = kilt_permissions_impl F C account_id32 now s in
      refused_lem (Ai.submit_inference F permissions now o id output) s.ai (λ done.
        elim (submit_inference_cases F permissions now o id output s.ai) [
          | inl failed ↦ absurd (failed done)
          | inr (who, did, request, _, _, r) ↦ absurd (unverified now s did n r.credential.verifies)
        ])
  ai-idle now o (Ai.Call.add_allowed_model id name hash) s h n =
      refused_lem (Ai.add_allowed_model F o id name hash) s.ai (λ done.
        elim (add_allowed_model_cases F o id name hash s.ai) [
          | inl failed ↦ absurd (failed done)
          | inr (_, _, r) ↦ absurd (ground (arith, h, r))
        ])

  dispatch-idle :
      (now : ℕ) (o : Origin) (c : RuntimeCall AccountId) (s : State F C account_id32)
      → ensure_root o ≡ false
      → NoCredentials s
      → (dispatch F C account_id32 now o c s).1.ai ≡ s.ai
  unfolding dispatch
  dispatch-idle now o (qx_kilt_permissions c) s h n = refl
  dispatch-idle now o (qx_ai c) s h n = ai-idle now o c s h n
  dispatch-idle now o (qx_faucet c) s h n = refl

  module _ (E : Executive F C account_id32) where
    apply_extrinsic-idle :
        (now : ℕ) (key : Option AccountId) (x : UncheckedExtrinsic AccountId)
        (s : State F C account_id32)
        → NotSudo F C account_id32 key x
        → NoCredentials s
        → (E.apply_extrinsic now key x s).ai ≡ s.ai
    apply_extrinsic-idle now key x s h n = elim (E.apply_extrinsic_lem now key x s) [
      | inl e ↦ ap (λ (t : State F C account_id32). t.ai) e
      | inr (o, g, e) ↦
          ap (λ (t : State F C account_id32). t.ai) e
          ∙ dispatch-idle now o (function x) s (Grants-NotSudo F C account_id32 now key s x o g h) n
    ]

    -- While no DID has a credential nothing happens in the AI pallet without the sudo key: whatever
    -- extrinsics come, none of them a `sudo` of the account that has the key then, its whole
    -- storage is as before, events included, and still no DID has a credential.
    pub run_extrinsics-idle :
        (xs : Extrinsics F C account_id32) (s : State F C account_id32)
        → NoSudo F C account_id32 xs
        → NoCredentials s
        → let t = run_extrinsics F C account_id32 E xs s in (t.ai ≡ s.ai) × NoCredentials t
    unfolding run_extrinsics
    run_extrinsics-idle [] s h n = (refl, n)
    run_extrinsics-idle ((now, key, x) ∷ xs) s h n =
        let t = E.apply_extrinsic now key x s in
        let kept = apply_extrinsic-IsKept F C account_id32 E now key x s h.0 in
        let none_yet : NoCredentials t = λ did. rw kept.kilt.credentials (n did) in
        let (rest, still) = run_extrinsics-idle xs t h.1 none_yet in
        (rest ∙ apply_extrinsic-idle now key x s h.0 n, still)
