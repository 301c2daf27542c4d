-- ===== src/Runtime/ShutOut.antt =====
-- A worker that root has stopped, across the pallets that runtime/src/lib.rs wires together.
use qxchain.Prelude.{
  ℕ, Bool, ◌≤◌, ◌*◌, ◌≡◌, ◌≢◌, Option, some, true, List, [], ◌∷◌, arith, saturating_add,
}
use mathlib.Core.Option
use qxchain.Frame.{Key, Frame, bytes_key, ok}
use qxchain.Currency.{Currency}
use qxchain.Kilt
use qxchain.Kilt.{WorkerDid, generate_did}
use qxchain.Ai
use qxchain.Kilt.Invariant.{IsValid}
use qxchain.Kilt.Access.{NoRoot}
use qxchain.Kilt.Credentials.{NoCollision}
use qxchain.Kilt.Barred.{IsBarred, suspend_worker-IsBarred, revoke_worker_credential-IsBarred}
use qxchain.Ai.Lifecycle.{
  submit_request-ok_iff, submit_inference-ok_iff, update_ai_worker_status-ok_iff,
}
use qxchain.Runtime.{
  qx_kilt_permissions, qx_ai, qx_faucet, State, Calls, dispatch, run, kilt_config, ai_config,
  kilt_permissions_impl, days,
}
use qxchain.Runtime.Pallets.{kilt_calls, kilt-run}

module _ {AccountId : Type 0} ⦃account_key : Key AccountId⦄ (F : Frame AccountId)
    (C : Currency AccountId) (account_id32 : List ℕ → AccountId) where
  open F use {get, ensure_root, ensure_signed, signed, ensure_signed-signed, Origin}

  -- At this block the account cannot work: no request to it, no answer from it and no change of its
  -- status is accepted. It can still send requests to other workers, as anyone can.
  pub record IsShutOut (later : ℕ) (a : AccountId) (s : State F C account_id32) : Type 0 where
    pub no_requests :
        (o : Origin) (prompt : List ℕ) (max_tokens : ℕ)
        → (dispatch F C account_id32 later o
            (qx_ai (Ai.Call.submit_request a prompt max_tokens))
            s).0
          ≢ ok tt
    pub no_answers :
        (id : ℕ) (output : List ℕ)
        → (dispatch F C account_id32 later
            (signed a)
            (qx_ai (Ai.Call.submit_inference id output))
            s).0
          ≢ ok tt
    pub no_status :
        (online : Bool)
        → (dispatch F C account_id32 later
            (signed a)
            (qx_ai (Ai.Call.update_ai_worker_status online))
            s).0
          ≢ ok tt

  barred-IsShutOut :
      (later : ℕ) (a : AccountId) (s : State F C account_id32)
      → IsBarred F later a s.kilt
      → IsShutOut later a s
  unfolding dispatch
  barred-IsShutOut later a s barred =
      let permissions = kilt_permissions_impl F C account_id32 later s in
      record {
        no_requests = λ o prompt max_tokens h.
            let (who, did, r) =
              (submit_request-ok_iff F permissions ai_config later o a prompt max_tokens s.ai).0
                h in
            barred did r.credential.has_did r.credential.verifies;
        no_answers = λ id output h.
            let (who, did, request, r) =
              (submit_inference-ok_iff F permissions ai_config later (signed a) id output s.ai).0
                h in
            let same : a ≡ who = ground (arith, ensure_signed-signed a, r.signer) in
            barred did (rw same (r.credential.has_did)) r.credential.verifies;
        no_status = λ online h.
            let (who, did, r) =
              (update_ai_worker_status-ok_iff F permissions ai_config later (signed a) online
                  s.ai).0
                h in
            let same : a ≡ who = ground (arith, ensure_signed-signed a, r.signer) in
            barred did (rw same (r.credential.has_did)) r.credential.verifies;
      }

  NoRoot-kilt_calls :
      (cs : Calls F C account_id32) → NoRoot F cs → NoRoot F (kilt_calls F C account_id32 cs)
  unfolding kilt_calls
  NoRoot-kilt_calls [] h = tt
  NoRoot-kilt_calls ((now, o, qx_kilt_permissions c) ∷ cs) h = (h.0, NoRoot-kilt_calls cs h.1)
  NoRoot-kilt_calls ((now, o, qx_ai c) ∷ cs) h = NoRoot-kilt_calls cs h.1
  NoRoot-kilt_calls ((now, o, qx_faucet c) ∷ cs) h = NoRoot-kilt_calls cs h.1

  -- In a well-formed storage with no collision of DIDs, a registered worker that root suspends, for
  -- the given number of blocks or by default a day, cannot work up to and including the last block
  -- of the suspension, whatever the other callers, who are not root, do in the meantime: no request
  -- to it, no answer from it and no change of its status is accepted.
  pub suspend_worker-IsShutOut :
      (now later : ℕ) (o : Origin) (duration : Option ℕ) (cs : Calls F C account_id32)
      (s : State F C account_id32) (a : AccountId) (w : WorkerDid AccountId)
      → IsValid F s.kilt
      → NoCollision F
      → ensure_root o ≡ true
      → get s.kilt.worker_dids a ≡ some w
      → NoRoot F cs
      → later ≤ saturating_add now (Option.get_or duration (1 * days))
      → let c = qx_kilt_permissions (Kilt.Call.suspend_worker (generate_did F a) duration) in
        IsShutOut later a (run F C account_id32 cs (dispatch F C account_id32 now o c s).1)
  unfolding dispatch
  suspend_worker-IsShutOut now later o duration cs s a w v n hr hw quiet low =
      let c = qx_kilt_permissions (Kilt.Call.suspend_worker (generate_did F a) duration) in
      let t = (dispatch F C account_id32 now o c s).1 in
      barred-IsShutOut later a (run F C account_id32 cs t) (
        rw (kilt-run F C account_id32 cs t) (
          suspend_worker-IsBarred F kilt_config now later o (kilt_calls F C account_id32 cs) s.kilt
            a v hr (NoRoot-kilt_calls cs quiet) duration w n hw low))

  -- In a well-formed storage an account whose credential root revokes cannot work from then on,
  -- whatever the other callers, who are not root, do: no request to it, no answer from it and no
  -- change of its status is accepted.
  pub revoke_worker_credential-IsShutOut :
      (now later : ℕ) (o : Origin) (cs : Calls F C account_id32) (s : State F C account_id32)
      (a : AccountId)
      → IsValid F s.kilt
      → ensure_root o ≡ true
      → NoRoot F cs
      → let c = qx_kilt_permissions (Kilt.Call.revoke_worker_credential (generate_did F a)) in
        IsShutOut later a (run F C account_id32 cs (dispatch F C account_id32 now o c s).1)
  unfolding dispatch
  revoke_worker_credential-IsShutOut now later o cs s a v hr quiet =
      let c = qx_kilt_permissions (Kilt.Call.revoke_worker_credential (generate_did F a)) in
      let t = (dispatch F C account_id32 now o c s).1 in
      barred-IsShutOut later a (run F C account_id32 cs t) (
        rw (kilt-run F C account_id32 cs t) (
          revoke_worker_credential-IsBarred F kilt_config now later o
            (kilt_calls F C account_id32 cs) s.kilt a v hr (NoRoot-kilt_calls cs quiet)))
