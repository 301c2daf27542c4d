-- ===== src/Runtime/Fees/Free.antt =====
-- Who gets something done for free with the calls that runtime/src/lib.rs takes no fee for.
use qxchain.Prelude.{ℕ, ⊤, ◌≡◌, refl, ◌⊎◌, inl, inr, true, Bool, some, List, ap}
use qxchain.Errors.{DispatchError}
use qxchain.Frame.{Frame, Key, bytes_key, nat_key, Result, ok, err}
use qxchain.Frame.Layer.{storage_layer_cases}
use qxchain.Frame.Dispatch.{pays_no}
use qxchain.Currency.{Currency}
use qxchain.Kilt
use qxchain.Kilt.{DidIdentifier}
use qxchain.Ai
use qxchain.Faucet
use qxchain.Ai.Outcomes.{submit_inference_cases}
use qxchain.Ai.Outcomes.Others.{update_ai_worker_status_cases}
use qxchain.Faucet.Outcomes.{claim_cases}
use qxchain.Runtime.{
  RuntimeCall, qx_kilt_permissions, qx_ai, qx_faucet, State, dispatch, ai_config, faucet_config,
  kilt_permissions_impl,
}
use qxchain.Runtime.Fees.{get_dispatch_info}

module _ {AccountId : Type 0} ⦃account_key : Key AccountId⦄ (F : Frame AccountId)
    (C : Currency AccountId) (account_id32 : List ℕ → AccountId) where
  open F use {Origin, ensure_signed, ensure_none}

  -- the call failed and changed nothing
  abbrev pub Failed : State F C account_id32 → Result ⊤ × State F C account_id32 → Type 0
  Failed s (r, t) = (e : DispatchError) × (r ≡ err e) × (t ≡ s)

  -- the sender is an account with a DID whose credential verifies
  abbrev pub FromWorker : ℕ → Origin → State F C account_id32 → Type 0
  FromWorker now o s =
      (who : AccountId) × (did : DidIdentifier) × (ensure_signed o ≡ some who)
      × (Kilt.get_worker_did F s.kilt who ≡ ok did)
      × (Kilt.verify_worker_credential F now s.kilt did ≡ ok true)

  -- no one signed it, and it is a claim of which `can_claim` holds
  abbrev pub FromClaimant : ℕ → Origin → RuntimeCall AccountId → State F C account_id32 → Type 0
  FromClaimant now o c s =
      (account : AccountId) × (c ≡ qx_faucet (Faucet.Call.claim account))
      × (ensure_none o ≡ true)
      × (Faucet.can_claim F C (faucet_config account_id32) now s.faucet account ≡ true)

  -- what a free call of the AI pallet ends in
  abbrev AiEnds : ℕ → Origin → State F C account_id32 → Result ⊤ × Ai.Pallet F → Type 0
  AiEnds now o s (r, ai) = ((e : DispatchError) × (r ≡ err e) × (ai ≡ s.ai)) ⊎ FromWorker now o s

  update_ai_worker_status-free :
      (now : ℕ) (o : Origin) (online : Bool) (s : State F C account_id32)
      → AiEnds now o s (
          Ai.dispatch F
            (kilt_permissions_impl F C account_id32 now s)
            ai_config
            now
            o
            (Ai.Call.update_ai_worker_status online)
            s.ai)
  unfolding Ai.dispatch
  update_ai_worker_status-free now o online s =
      let permissions = kilt_permissions_impl F C account_id32 now s in
      storage_layer_cases F (AiEnds now o s) _ s.ai (λ e. inl (e, refl, refl))
        (λ a done. elim (update_ai_worker_status_cases F permissions o online s.ai) [
          | inl failed ↦ absurd (failed done)
          | inr (who, did, _, _, r) ↦
              inr (who, did, r.signer, r.credential.has_did, r.credential.verifies)
        ])

  submit_inference-free :
      (now : ℕ) (o : Origin) (id : ℕ) (output : List ℕ) (s : State F C account_id32)
      → AiEnds now o s (
          Ai.dispatch F
            (kilt_permissions_impl F C account_id32 now s)
            ai_config
            now
            o
            (Ai.Call.submit_inference id output)
            s.ai)
  unfolding Ai.dispatch
  submit_inference-free now o id output s =
      let permissions = kilt_permissions_impl F C account_id32 now s in
      storage_layer_cases F (AiEnds now o s) _ s.ai (λ e. inl (e, refl, refl))
        (λ a done. elim (submit_inference_cases F permissions now o id output s.ai) [
          | inl failed ↦ absurd (failed done)
          | inr (who, did, request, _, _, r) ↦
              inr (who, did, r.signer, r.credential.has_did, r.credential.verifies)
        ])

  claim-free :
      (now : ℕ) (o : Origin) (account : AccountId) (s : State F C account_id32)
      → let config = faucet_config account_id32 in
        let (r, faucet) = Faucet.dispatch F C config now o (Faucet.Call.claim account) s.faucet in
        ((e : DispatchError) × (r ≡ err e) × (faucet ≡ s.faucet))
        ⊎ ((ensure_none o ≡ true) × (Faucet.can_claim F C config now s.faucet account ≡ true))
  unfolding Faucet.dispatch
  claim-free now o account s =
      let config = faucet_config account_id32 in
      storage_layer_cases F
        (λ x.
          ((e : DispatchError) × (x.0 ≡ err e) × (x.1 ≡ s.faucet))
          ⊎ ((ensure_none o ≡ true) × (Faucet.can_claim F C config now s.faucet account ≡ true)))
        _ s.faucet (λ e. inl (e, refl, refl))
        (λ a done. elim (claim_cases F C config now o account s.faucet) [
          | inl failed ↦ absurd (failed done)
          | inr (l, _, _, c) ↦ inr (c.not_signed, c.allowed)
        ])

  -- A call for which no fee is taken gets something done only for those it is meant for: it fails
  -- and changes nothing, or a worker sent it whose credential verifies at that block, or it is an
  -- unsigned claim for an account of which `can_claim` holds.
  pub dispatch-free :
      (now : ℕ) (o : Origin) (c : RuntimeCall AccountId) (s : State F C account_id32)
      → (get_dispatch_info c).pays_fee ≡ pays_no
      → Failed s (dispatch F C account_id32 now o c s)
        ⊎ (FromWorker now o s ⊎ FromClaimant now o c s)
  unfolding get_dispatch_info dispatch
  dispatch-free now o (qx_kilt_permissions (Kilt.Call.set_governance_did did)) s h = cc
  dispatch-free now o (qx_kilt_permissions (Kilt.Call.create_worker_did name description)) s h = cc
  dispatch-free now o (qx_kilt_permissions (Kilt.Call.issue_worker_credential did models period)) s
        h =
      cc
  dispatch-free now o (qx_kilt_permissions (Kilt.Call.revoke_worker_credential did)) s h = cc
  dispatch-free now o (qx_kilt_permissions (Kilt.Call.suspend_worker did duration)) s h = cc
  dispatch-free now o (qx_ai (Ai.Call.submit_request target prompt max_tokens)) s h = cc
  dispatch-free now o (qx_ai (Ai.Call.add_allowed_model id name hash)) s h = cc
  dispatch-free now o (qx_ai (Ai.Call.update_ai_worker_status online)) s h =
      elim (update_ai_worker_status-free now o online s) [
        | inl (e, p, q) ↦ inl (e, p, ap (λ ai. record s { ai = ai }) q)
        | inr w ↦ inr (inl w)
      ]
  dispatch-free now o (qx_ai (Ai.Call.submit_inference id output)) s h =
      elim (submit_inference-free now o id output s) [
        | inl (e, p, q) ↦ inl (e, p, ap (λ ai. record s { ai = ai }) q)
        | inr w ↦ inr (inl w)
      ]
  dispatch-free now o (qx_faucet (Faucet.Call.fund_faucet amount)) s h = cc
  dispatch-free now o (qx_faucet (Faucet.Call.claim account)) s h =
      elim (claim-free now o account s) [
        | inl (e, p, q) ↦ inl (e, p, ap (λ faucet. record s { faucet = faucet }) q)
        | inr (n, can) ↦ inr (inr (account, refl, n, can))
      ]
