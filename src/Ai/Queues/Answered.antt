-- ===== src/Ai/Queues/Answered.antt =====
-- A successful `submit_inference` of pallets/pallet-qx-ai/src/lib.rs and the queues.
use qxchain.Prelude.{
  ℕ, ◌≡◌, sym, ◌≢◌, some, List, arith, Elem, ite, if_pos, if_neg, length-retain-le, not, ◌==◌,
}
use qxchain.Frame.{Frame, Key, nat_key, bytes_key}
use qxchain.Ai.Ids.{Ascends-without, Elem-without, without-Elem}
use qxchain.Ai.{DidIdentifier, Config, Pallet, InferenceRequest, RequestStatus}
use qxchain.Ai.Outcomes.{queue_of-answered, queue_of, answered}
use qxchain.Ai.Queues.{IsWaiting, IsQueued}

module _ {AccountId : Type 0} ⦃account_key : Key AccountId⦄ (F : Frame AccountId) where
  open F use {get, insert, remove, get-insert, get-remove, ensure_signed, ensure_root, Origin}

  module _ (config : Config) (now : ℕ) (who : AccountId) (did : DidIdentifier) (id : ℕ)
      (output : List ℕ) (request : InferenceRequest AccountId) (s : Pallet F)
      (v : IsQueued F config s) (known : get s.inference_requests id ≡ some request)
      (own : request.target_worker ≡ who) where
    abbrev pub u : Pallet F
    u = answered F now who did id output request s

    request-answered :
        (j : ℕ)
        → get u.inference_requests j
          ≡ ite
              (nat_key.dec id j)
              (some (record request { status = RequestStatus.completed }))
              (get s.inference_requests j)
    request-answered j =
        get-insert s.inference_requests id (record request { status = RequestStatus.completed }) j

    Elem-answered :
        (a : AccountId) (i : ℕ) → Elem i (queue_of F u a) → Elem i (queue_of F s a) × (id ≢ i)
    Elem-answered a i h = elim (account_key.dec who a) [
      | yes p ↦ ground (
        arith,
        p,
        Elem-without i id (queue_of F s who)
            (rw (queue_of-answered F now who did id output request s a, if_pos _ p) at h),
      )
      | no p ↦
          let old : Elem i (queue_of F s a) =
            rw (queue_of-answered F now who did id output request s a, if_neg _ p) at h in
          (old, λ e. ground (arith, v.sound a i old, known, own, p, e))
    ]

    answered-Elem :
        (a : AccountId) (i : ℕ) → Elem i (queue_of F s a) → id ≢ i → Elem i (queue_of F u a)
    answered-Elem a i h ne = elim (account_key.dec who a) [
      | yes p ↦
          rw (queue_of-answered F now who did id output request s a, if_pos _ p)
            (without-Elem i id (queue_of F s who) (ground (arith, p, h)) (λ e. ne (sym e)))
      | no p ↦ rw (queue_of-answered F now who did id output request s a, if_neg _ p) h
    ]

    sound-answered : (a : AccountId) (i : ℕ) → Elem i (queue_of F u a) → IsWaiting F u a i
    sound-answered a i h =
        let (old, ne) = Elem-answered a i h in
        rw (request-answered i, if_neg _ ne) (v.sound a i old)

    complete-answered : (a : AccountId) (i : ℕ) → IsWaiting F u a i → Elem i (queue_of F u a)
    complete-answered a i h = elim (nat_key.dec id i) [
      | yes p ↦ absurd (cc ((rw (request-answered i, if_pos _ p) at h).1))
      | no p ↦ answered-Elem a i (v.complete a i (rw (request-answered i, if_neg _ p) at h)) p
    ]

    pub answered-IsQueued : IsQueued F config u
    answered-IsQueued = record {
      bounded = λ a. ground (
        arith,
        queue_of-answered F now who did id output request s a,
        v.bounded a,
        v.bounded who,
        length-retain-le (λ j. not (j == id)) (queue_of F s who),
      );
      ascending = λ a.
          rw (queue_of-answered F now who did id output request s a) (
            ground (arith, v.ascending a, Ascends-without id (queue_of F s who) (v.ascending who)));
      sound = sound-answered;
      complete = complete-answered;
      fresh = λ i r e. ground (arith, request-answered i, v.fresh i r, v.fresh id request known);
      mapped = λ i. ground (arith, request-answered i, v.mapped i, known);
    }
