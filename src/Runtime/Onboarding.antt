-- ===== src/Runtime/Onboarding.antt =====
-- A new worker across the pallets that runtime/src/lib.rs wires together, up to its first answer.
use qxchain.Prelude.{
  ℕ, ◌≤◌, ◌<◌, ◌≡◌, none, some, true, List, saturating_add, length, u32_max, subst,
}
use qxchain.Frame.{Key, Frame, bytes_key, ok}
use qxchain.Currency.{Currency}
use qxchain.Kilt
use qxchain.Kilt.{ModelId, generate_did}
use qxchain.Ai
use qxchain.Kilt.Invariant.{IsValid, dispatch-IsValid}
use qxchain.Kilt.Credentials.{NoCollision}
use qxchain.Kilt.Onboarding.{
  onboarded, dispatch-create_worker_did, dispatch-issue_worker_credential, get_worker_did-onboarded,
  verify_worker_credential-onboarded,
}
use qxchain.Kilt.Outcomes.{created}
use qxchain.Ai.Outcomes.{queue_of, new_result, Requests}
use qxchain.Ai.Queues.{IsQueued}
use qxchain.Ai.Lifecycle.{submit_request-ok_iff, submit_inference-submit_request}
use qxchain.Runtime.{
  qx_kilt_permissions, qx_ai, State, dispatch, kilt_config, ai_config, kilt_permissions_impl,
}

module _ {AccountId : Type 0} ⦃account_key : Key AccountId⦄ (F : Frame AccountId)
    (C : Currency AccountId) (account_id32 : List ℕ → AccountId) where
  open F use {get, ensure_root, signed, ensure_signed-signed, Origin}

  -- In a well-formed storage with no collision of DIDs and ids left, an account with no DID gets to
  -- work: it creates its DID, root issues a credential for at most 100 models and some period, any
  -- signer submits a request to it, if its queue has room, and it answers, both within the period.
  -- The request and the answer are accepted and the output is stored.
  pub onboarding :
      (now now' later later' : ℕ) (o : Origin) (a customer : AccountId)
      (name description prompt output : List ℕ) (models : List ModelId) (period max_tokens : ℕ)
      (s : State F C account_id32)
      → IsValid F s.kilt
      → NoCollision F
      → IsQueued F ai_config s.ai
      → s.ai.next_request_id < u32_max
      → get s.kilt.worker_dids a ≡ none
      → length name ≤ 128
      → length description ≤ 512
      → ensure_root o ≡ true
      → length models ≤ 100
      → length (queue_of F s.ai a) < 100
      → later ≤ saturating_add now' period
      → later' ≤ saturating_add now' period
      → let did = generate_did F a in
        let s1 =
          (dispatch F C account_id32 now
            (signed a)
            (qx_kilt_permissions (Kilt.Call.create_worker_did name description))
            s).1 in
        let s2 =
          (dispatch F C account_id32 now' o
            (qx_kilt_permissions (Kilt.Call.issue_worker_credential did models (some period)))
            s1).1 in
        let (r3, s3) =
          dispatch F C account_id32 later
            (signed customer)
            (qx_ai (Ai.Call.submit_request a prompt max_tokens))
            s2 in
        let (r4, s4) =
          dispatch F C account_id32 later'
            (signed a)
            (qx_ai (Ai.Call.submit_inference s.ai.next_request_id output))
            s3 in
        (r3 ≡ ok tt)
        × (r4 ≡ ok tt)
        × (Ai.get_inference_result F s4.ai s.ai.next_inference_id
            ≡ some (new_result F later' a did s.ai.next_request_id output))
  unfolding dispatch
  onboarding now now' later later' o a customer name description prompt output models period
        max_tokens s v n q ids new hn hd hr hm room low low' =
      let first =
        dispatch-create_worker_did F kilt_config now a name description s.kilt new hn hd in
      let second =
        dispatch-issue_worker_credential F kilt_config now' o a models (some period)
          (created F now a name description s.kilt) hr hm in
      let k = onboarded F now now' o a name description models period s.kilt in
      let t : State F C account_id32 = record s { kilt = k } in
      let valid : IsValid F (created F now a name description s.kilt) =
        subst (λ x. IsValid F x.1) first
          (dispatch-IsValid F kilt_config now (signed a)
            (Kilt.Call.create_worker_did name description) s.kilt v) in
      let verifies : (b : ℕ)
          → b ≤ saturating_add now' period
          → Kilt.verify_worker_credential F b k (generate_did F a) ≡ ok true =
        λ b low.
          verify_worker_credential-onboarded F now now' o a name description models period s.kilt b
            valid n hr hm low in
      let has_did = get_worker_did-onboarded F now now' o a name description models period s.kilt in
      let p = kilt_permissions_impl F C account_id32 later t in
      let p' = kilt_permissions_impl F C account_id32 later' t in
      let requests : Requests F p ai_config (signed customer) a s.ai customer (generate_did F a) =
        record {
          signer = ensure_signed-signed customer;
          credential = record { has_did = has_did; verifies = verifies later low };
          room = room;
        } in
      let accepted =
        (submit_request-ok_iff F p ai_config later (signed customer) a prompt max_tokens s.ai).1
          (customer, generate_did F a, requests) in
      let life =
        submit_inference-submit_request F p ai_config p' later later' (signed customer) (signed a) a
          prompt output max_tokens s.ai customer (generate_did F a) (generate_did F a) q ids
          requests (ensure_signed-signed a)
          (record { has_did = has_did; verifies = verifies later' low' }) in
      rw (first, second) (accepted, life.0, life.1)
