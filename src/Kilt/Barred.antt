-- ===== src/Kilt/Barred.antt =====
-- What stops a worker, over pallets/pallet-qx-kilt-permissions/src/lib.rs: suspension and
-- revocation, with calls of others after them.
use qxchain.Prelude.{
  ℕ, ◌≤◌, ◌≡◌, refl, ◌≢◌, inl, inr, Option, none, some, true, List, arith, Option-cases,
  saturating_add, ◌∙◌, if_pos,
}
use mathlib.Core.Option
use qxchain.Frame.{Frame, Key, bytes_key, ok}
use qxchain.Frame.Layer.{storage_layer_ok}
use qxchain.Kilt.{
  Call, Config, DidIdentifier, WorkerDid, suspended, Pallet, generate_did, dispatch, run,
  suspend_worker, revoke_worker_credential, get_worker_did, verify_worker_credential, status_allows,
}
use qxchain.Kilt.Outcomes.{suspends, suspend_worker_cases}
use qxchain.Kilt.Invariant.{IsValid, dispatch-IsValid, run-IsValid}
use qxchain.Kilt.Access.{NoRoot, run-Untouched}
use qxchain.Kilt.Credentials.{NoCollision, verify_worker_credential-worker}
use qxchain.Kilt.Suspension.{worker_dids-after}

module _ {AccountId : Type 0} ⦃account_key : Key AccountId⦄ (F : Frame AccountId) where
  open F use {get, get-remove, ensure_root, Origin}

  -- no DID that the pallet gives for the account verifies
  abbrev pub IsBarred : ℕ → AccountId → Pallet F → Type 0
  IsBarred later a s =
      (d : DidIdentifier)
      → get_worker_did F s a ≡ ok d
      → verify_worker_credential F later s d ≢ ok true

  own_did :
      (s : Pallet F) (a : AccountId) (d : DidIdentifier)
      → IsValid F s
      → get_worker_did F s a ≡ ok d
      → d ≡ generate_did F a
  unfolding get_worker_did
  own_did s a d v h = elim (Option-cases (get s.worker_dids a)) [
    | inl e ↦ absurd (ground (arith, v.reverse a, e, h))
    | inr (w, e) ↦ ground (arith, v.reverse a, e, h, (v.workers a w e).own_did)
  ]

  suspended-IsBarred :
      (later until : ℕ) (s : Pallet F) (a : AccountId) (w : WorkerDid AccountId)
      → IsValid F s
      → NoCollision F
      → get s.worker_dids a ≡ some (record w { status = suspended until })
      → later ≤ until
      → IsBarred later a s
  unfolding verify_worker_credential status_allows
  suspended-IsBarred later until s a w v n h low d hd verified =
      let e = own_did s a d v hd in
      elim (Option-cases (get s.worker_credentials (generate_did F a))) [
        | inl absent ↦ absurd (ground (arith, e, absent, verified))
        | inr (c, present) ↦
            let answer =
              verify_worker_credential-worker F later s a (record w { status = suspended until }) c
                v n h present in
            absurd (ground (arith, e, answer, verified, low))
      ]

  revoked-IsBarred :
      (later : ℕ) (s : Pallet F) (a : AccountId)
      → IsValid F s
      → get s.worker_credentials (generate_did F a) ≡ none
      → IsBarred later a s
  unfolding verify_worker_credential
  revoked-IsBarred later s a v absent d hd verified =
      absurd (ground (arith, own_did s a d v hd, absent, verified))

  dispatch-suspend_worker :
      (config : Config) (now : ℕ) (o : Origin) (did : DidIdentifier) (duration : Option ℕ)
      (s : Pallet F)
      → ensure_root o ≡ true
      → dispatch F config now o (Call.suspend_worker did duration) s ≡ (
        ok tt,
        suspends F did
            (saturating_add now (Option.get_or duration config.worker_suspension_period))
            s,
      )
  unfolding dispatch
  dispatch-suspend_worker config now o did duration s h =
      let e = suspend_worker_cases F config now o did duration s in
      storage_layer_ok F (suspend_worker F config now o did duration) s tt (rw (e, h) refl)
      ∙ rw (e, h) refl

  credential-revoke :
      (config : Config) (now : ℕ) (o : Origin) (did : DidIdentifier) (s : Pallet F)
      → ensure_root o ≡ true
      → get (dispatch F config now o (Call.revoke_worker_credential did) s).1.worker_credentials did
        ≡ none
  unfolding dispatch revoke_worker_credential
  credential-revoke config now o did s h = rw (
    storage_layer_ok F (revoke_worker_credential F o did) s tt (ground (arith, h)),
    h,
    get-remove s.worker_credentials did did,
    if_pos _ refl,
  )

  module _ (config : Config) (now later : ℕ) (o : Origin) (cs : List (ℕ × Origin × Call))
      (s : Pallet F) (a : AccountId) (v : IsValid F s) (root : ensure_root o ≡ true)
      (quiet : NoRoot F cs) where
    -- Once root has suspended a worker, it stays barred until the end of the suspension, as long as
    -- root does nothing.
    pub suspend_worker-IsBarred :
        (duration : Option ℕ) (w : WorkerDid AccountId)
        → NoCollision F
        → get s.worker_dids a ≡ some w
        → later ≤ saturating_add now (Option.get_or duration config.worker_suspension_period)
        → IsBarred later a (
            run F config cs
              (dispatch F config now o (Call.suspend_worker (generate_did F a) duration) s).1)
    suspend_worker-IsBarred duration w n h low =
        let until = saturating_add now (Option.get_or duration config.worker_suspension_period) in
        let c = Call.suspend_worker (generate_did F a) duration in
        let t = (dispatch F config now o c s).1 in
        let valid = run-IsValid F config cs t (dispatch-IsValid F config now o c s v) in
        let entry : get t.worker_dids a ≡ some (record w { status = suspended until }) =
          rw (dispatch-suspend_worker config now o (generate_did F a) duration s root)
            (ground (arith, worker_dids-after F until s a w v n h a)) in
        suspended-IsBarred later until (run F config cs t) a w valid n
          ((run-Untouched F config cs t quiet).workers a _ entry) low

    -- Once root has revoked its credential, it stays barred as long as root does nothing.
    pub revoke_worker_credential-IsBarred : IsBarred later a (
        run F config cs
          (dispatch F config now o (Call.revoke_worker_credential (generate_did F a)) s).1)
    revoke_worker_credential-IsBarred =
        let c = Call.revoke_worker_credential (generate_did F a) in
        let t = (dispatch F config now o c s).1 in
        let valid = run-IsValid F config cs t (dispatch-IsValid F config now o c s v) in
        revoked-IsBarred later (run F config cs t) a valid (
          rw ((run-Untouched F config cs t quiet).credentials)
            (credential-revoke config now o (generate_did F a) s root))
