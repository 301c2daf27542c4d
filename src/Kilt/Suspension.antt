-- ===== src/Kilt/Suspension.antt =====
-- `suspend_worker` and `suspend_worker_credential` of
-- pallets/pallet-qx-kilt-permissions/src/lib.rs: whom they stop, and for how long.
use qxchain.Prelude.{
  ℕ, ◌≡◌, refl, ◌≢◌, inl, inr, Option, some, false, true, arith, ite, if◌then◌else◌, ltb,
  saturating_add,
}
use mathlib.Core.Option
use qxchain.Frame.{Frame, Key, bytes_key, ok}
use qxchain.Kilt.{
  DidIdentifier, WorkerDid, AiWorkerCredential, suspended, Pallet, generate_did, suspend_first,
  suspend_worker, suspend_worker_credential, Config, verify_worker_credential, status_allows,
  is_expired,
}
use qxchain.Kilt.Invariant.{IsValid, suspends-IsValid}
use qxchain.Kilt.Credentials.{NoCollision, verify_worker_credential-worker, verify_status-worker}
use qxchain.Kilt.Outcomes.{suspends, suspend_worker_cases, suspend_first_cases, with_status}

module _ {AccountId : Type 0} ⦃account_key : Key AccountId⦄ (F : Frame AccountId) where
  open F use {
    get, insert, iter, get-insert, get-remove, iter-get, ensure_root, ensure_signed, Origin,
  }

  -- With no collision the loop suspends the worker whose DID is given.
  suspend_first-worker :
      (until : ℕ) (s : Pallet F) (a : AccountId) (w : WorkerDid AccountId)
      → IsValid F s
      → NoCollision F
      → get s.worker_dids a ≡ some w
      → suspend_first F (generate_did F a) until (iter s.worker_dids) s
        ≡ with_status F s a w (suspended until)
  suspend_first-worker until s a w v n h =
      elim (suspend_first_cases F (generate_did F a) until (iter s.worker_dids) s) [
        | inl (_, absent) ↦
            absurd (absent a w ((iter-get s.worker_dids a w).1 h) ((v.workers a w h).own_did))
        | inr (b, x, at, found, e) ↦
            let held = (iter-get s.worker_dids b x).0 at in
            let same : b ≡ a = n.injective b a (cc ((v.workers b x held).own_did)) in
            let entry : x ≡ w = ground (arith, held, same, h) in rw (e, same, entry)
      ]

  -- What verification answers at the block `later` over the storage `t`, where `a` is suspended
  -- until `until`: for the DID of `a` by its expiry and the suspension, for the other workers as
  -- over `s`.
  pub record SuspendsOnly (later until : ℕ) (a : AccountId) (s t : Pallet F) : Type 0 where
    pub suspended :
        (c : AiWorkerCredential)
        → get s.worker_credentials (generate_did F a) ≡ some c
        → verify_worker_credential F later t (generate_did F a)
          ≡ ok (if is_expired later c.expires_at then false else ltb until later)
    pub others :
        (b : AccountId) (x : WorkerDid AccountId)
        → b ≢ a
        → get s.worker_dids b ≡ some x
        → verify_worker_credential F later t (generate_did F b)
          ≡ verify_worker_credential F later s (generate_did F b)

  module _ (until : ℕ) (s : Pallet F) (a : AccountId) (w : WorkerDid AccountId) (v : IsValid F s)
      (n : NoCollision F) (h : get s.worker_dids a ≡ some w) where
    abbrev pub after : Pallet F
    after = suspends F (generate_did F a) until s

    pub worker_dids-after :
        (b : AccountId)
        → get after.worker_dids b
          ≡ ite
              (account_key.dec a b)
              (some (record w { status = suspended until }))
              (get s.worker_dids b)
    worker_dids-after b =
        rw (suspend_first-worker until s a w v n h)
          (get-insert s.worker_dids a (record w { status = suspended until }) b)

    worker_credentials-after : after.worker_credentials ≡ s.worker_credentials
    worker_credentials-after = rw (suspend_first-worker until s a w v n h)

    suspends-SuspendsOnly : (later : ℕ) → SuspendsOnly later until a s after
    unfolding verify_worker_credential status_allows
    suspends-SuspendsOnly later =
        let v' = suspends-IsValid F (generate_did F a) until s v in
        record {
          suspended = λ c hc.
              verify_worker_credential-worker F later after a
                (record w { status = suspended until }) c v' n (ground (arith, worker_dids-after a))
                (rw worker_credentials-after hc);
          others = λ b x ne hb.
              let hb' : get after.worker_dids b ≡ some x = ground (arith, worker_dids-after b) in
              ground (
                arith,
                worker_credentials-after,
                verify_status-worker F later s b x v n hb,
                verify_status-worker F later after b x v' n hb',
              );
        }

  -- In a well-formed storage with no collision, root suspends a registered worker until the given
  -- number of blocks from now, by default the configured period: up to and including that block its
  -- credential does not verify, from the next block on it verifies if it has not expired, and what
  -- is answered for every other registered worker is unchanged.
  pub suspend_worker-SuspendsOnly :
      (config : Config) (now later : ℕ) (o : Origin) (duration : Option ℕ) (s : Pallet F)
      (a : AccountId) (w : WorkerDid AccountId)
      → IsValid F s
      → NoCollision F
      → ensure_root o ≡ true
      → get s.worker_dids a ≡ some w
      → let (r, t) = suspend_worker F config now o (generate_did F a) duration s in
        (r ≡ ok tt)
        × SuspendsOnly later
            (saturating_add now (Option.get_or duration config.worker_suspension_period))
            a
            s
            t
  suspend_worker-SuspendsOnly config now later o duration s a w v n hr hw =
      rw (suspend_worker_cases, hr)
        (
          refl,
          suspends-SuspendsOnly
              (saturating_add now (Option.get_or duration config.worker_suspension_period)) s a w v
              n hw later,
        )

  -- The helper for other pallets suspends as root does, with the duration that it is given.
  suspend_worker_credential-suspend_worker :
      (config : Config) (now : ℕ) (o : Origin) (did : DidIdentifier) (duration : ℕ) (s : Pallet F)
      → ensure_root o ≡ true
      → suspend_worker_credential F now did duration s
        ≡ suspend_worker F config now o did (some duration) s
  unfolding suspend_worker_credential
  suspend_worker_credential-suspend_worker config now o did duration s hr =
      rw (suspend_worker_cases, hr)
