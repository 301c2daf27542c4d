-- ===== src/Ai/Queues/Requested.antt =====
-- A successful `submit_request` of pallets/pallet-qx-ai/src/lib.rs and the queues.
use qxchain.Prelude.{
  ℕ, ◌<◌, ◌≡◌, refl, sym, ◌≢◌, ◌⊎◌, inl, inr, none, some, List, [], ◌∷◌, ◌++◌, arith, length,
  Option-cases, Elem, ite, if_pos, if_neg, length-append, u32_max,
}
use qxchain.Frame.{Frame, Key, nat_key, bytes_key}
use qxchain.Ai.Ids.{Ascends-snoc, Elem-snoc, snoc-Elem}
use qxchain.Ai.{Config, Pallet}
use qxchain.Ai.Outcomes.{queue_of, requested, new_request}
use qxchain.Ai.Queues.{IsWaiting, IsQueued}

module _ {AccountId : Type 0} ⦃account_key : Key AccountId⦄ (F : Frame AccountId) where
  open F use {get, insert, remove, get-insert, get-remove, ensure_signed, ensure_root, Origin}

  module _ (config : Config) (now : ℕ) (who target : AccountId) (prompt : List ℕ) (max_tokens : ℕ)
      (s : Pallet F) (v : IsQueued F config s)
      (room : length (queue_of F s target) < config.max_queue_size)
      (unwrapped : s.next_request_id < u32_max) where
    abbrev pub t : Pallet F
    t = requested F now who target prompt max_tokens s

    abbrev pub id : ℕ
    id = s.next_request_id

    pub queue_of-requested :
        (a : AccountId)
        → queue_of F t a
          ≡ ite (account_key.dec target a) (queue_of F s target ++ id ∷ []) (queue_of F s a)
    queue_of-requested a =
        ground (arith, get-insert s.ai_worker_queues target (queue_of F s target ++ id ∷ []) a)

    pub request-requested :
        (j : ℕ)
        → get t.inference_requests j
          ≡ ite
              (nat_key.dec id j)
              (some (new_request F now who target prompt max_tokens))
              (get s.inference_requests j)
    request-requested j =
        get-insert s.inference_requests id (new_request F now who target prompt max_tokens) j

    none-fresh : get s.inference_requests id ≡ none
    none-fresh = elim (Option-cases (get s.inference_requests id)) [
      | inl e ↦ e
      | inr (r, e) ↦ absurd (omega (arith, v.fresh id r e))
    ]

    pub below_next : (a : AccountId) (i : ℕ) → Elem i (queue_of F s a) → i < id
    below_next a i h = elim (Option-cases (get s.inference_requests i)) [
      | inl e ↦ absurd (ground (arith, v.sound a i h, e))
      | inr (r, e) ↦ v.fresh i r e
    ]

    -- An id in a queue after the call is the new one, in the queue of its worker, or an old one.
    Elem-requested :
        (a : AccountId) (i : ℕ)
        → Elem i (queue_of F t a)
        → Elem i (queue_of F s a) ⊎ ((target ≡ a) × (i ≡ id))
    Elem-requested a i h = elim (account_key.dec target a) [
      | yes p ↦ ground (
        arith,
        p,
        Elem-snoc i id (queue_of F s target) (rw (queue_of-requested a, if_pos _ p) at h),
      )
      | no p ↦ inl (rw (queue_of-requested a, if_neg _ p) at h)
    ]

    requested-Elem :
        (a : AccountId) (i : ℕ)
        → Elem i (queue_of F s a) ⊎ ((target ≡ a) × (i ≡ id))
        → Elem i (queue_of F t a)
    requested-Elem a i h = elim (account_key.dec target a) [
      | yes p ↦
          rw (queue_of-requested a, if_pos _ p)
            (snoc-Elem i id (queue_of F s target) (ground (arith, p, h)))
      | no p ↦ rw (queue_of-requested a, if_neg _ p) (ground (arith, p, h))
    ]

    sound-requested : (a : AccountId) (i : ℕ) → Elem i (queue_of F t a) → IsWaiting F t a i
    sound-requested a i h = elim (Elem-requested a i h) [
      | inl old ↦
          let ne : id ≢ i = λ e. absurd (omega (arith, below_next a i old, e)) in
          rw (request-requested i, if_neg _ ne) (v.sound a i old)
      | inr (p, e) ↦ rw (request-requested i, if_pos _ (sym e)) (p, refl)
    ]

    complete-requested : (a : AccountId) (i : ℕ) → IsWaiting F t a i → Elem i (queue_of F t a)
    complete-requested a i h = elim (nat_key.dec id i) [
      | yes p ↦ requested-Elem a i (inr ((rw (request-requested i, if_pos _ p) at h).0, sym p))
      | no p ↦ requested-Elem a i (inl (v.complete a i (rw (request-requested i, if_neg _ p) at h)))
    ]

    pub requested-IsQueued : IsQueued F config t
    requested-IsQueued = record {
      bounded = λ a. ground (
        arith,
        queue_of-requested a,
        v.bounded a,
        room,
        length-append (queue_of F s target) (id ∷ []),
      );
      ascending = λ a. rw (queue_of-requested a) (
          ground (
            arith,
            v.ascending a,
            Ascends-snoc id (queue_of F s target) (v.ascending target) (below_next target),
          ));
      sound = sound-requested;
      complete = complete-requested;
      fresh = λ i r e. ground (arith, request-requested i, v.fresh i r, unwrapped);
      mapped = λ i.
          ground
            (arith, request-requested i, v.mapped i, get-insert s.request_worker_map id target i);
    }
