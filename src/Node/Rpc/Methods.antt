-- ===== src/Node/Rpc/Methods.antt =====
-- The methods that node/src/rpc.rs serves.
use Prim.Native.String.{String}
use qxchain.Prelude.{◌≡◌, ◌⊎◌, inl, inr, ◌↔◌, List, [], Elem}
use qxchain.Node.Outcome.{Outcome, value, error, Ends, >>=-eq-value, value_inj}
use qxchain.Node.Sdk.{Sdk}
use qxchain.Node.Rpc.{FullDeps, create_full}

module _ (S : Sdk) where
  open S use {RpcModule, rpc_new, rpc_merge, system_rpc, transaction_payment_rpc}

  -- what jsonrpsee documents of a module: a merge takes in all methods of the other module, or it
  -- fails, since a method of one name is in both
  pub record IsLawful (method_names : RpcModule → List String) : Type 0 where
    pub names-new : method_names rpc_new ≡ []
    pub names-merge :
        (a b m : RpcModule) (n : String)
        → rpc_merge a b ≡ value m
        → Elem n (method_names m) ↔ (Elem n (method_names a) ⊎ Elem n (method_names b))
    pub merge_disjoint :
        (a b : RpcModule)
        → ((n : String) → Elem n (method_names a) → ¬ Elem n (method_names b))
        → Ends (rpc_merge a b)
    pub merge_clash :
        (a b : RpcModule) (n : String)
        → Elem n (method_names a)
        → Elem n (method_names b)
        → (e : String) × (rpc_merge a b ≡ error e)

  module _ (method_names : RpcModule → List String) (l : IsLawful method_names)
      (deps : FullDeps S) where
    abbrev system_methods : List String
    system_methods = method_names (system_rpc deps.client deps.pool)

    abbrev payment_methods : List String
    payment_methods = method_names (transaction_payment_rpc deps.client)

    clashes : {o : Outcome RpcModule} (m : RpcModule) (e : String) → o ≡ value m → o ≡ error e → ⊥
    clashes m e p q = cc

    names_1 :
        (m : RpcModule) (n : String)
        → rpc_merge rpc_new (system_rpc deps.client deps.pool) ≡ value m
        → Elem n (method_names m) ↔ Elem n system_methods
    names_1 m n e =
        let (to, from) = l.names-merge rpc_new (system_rpc deps.client deps.pool) m n e in
        (λ h. elim (to h) [ inl a ↦ absurd (rw l.names-new at a) | inr b ↦ b ], λ h. from (inr h))

    pub create_full_ok :
        ((n : String) → Elem n system_methods → ¬ Elem n payment_methods)
        → Ends (create_full S deps)
    unfolding create_full
    create_full_ok h =
        let (m, e) =
          l.merge_disjoint rpc_new (system_rpc deps.client deps.pool)
            (λ n a b. absurd (rw l.names-new at a)) in
        let (m2, e2) =
          l.merge_disjoint m (transaction_payment_rpc deps.client)
            (λ n a b. h n ((names_1 m n e).0 a) b) in
        (m2, rw (e, e2))

    -- What `create_full` gives serves the methods of the system module and of the payment module
    -- and no other, and no method is in both.
    pub create_full-methods :
        (m : RpcModule)
        → create_full S deps ≡ value m
        → ((n : String)
            → Elem n (method_names m) ↔ (Elem n system_methods ⊎ Elem n payment_methods))
          × ((n : String) → ¬ (Elem n system_methods × Elem n payment_methods))
    unfolding create_full
    create_full-methods m h =
        let (m1, e1, h1) = >>=-eq-value (rpc_merge rpc_new _) _ m h in
        let (m2, e2, h2) = >>=-eq-value (rpc_merge m1 _) _ m h1 in
        let same : m2 ≡ m = value_inj _ _ h2 in
        (
          λ n.
              let (to, from) = l.names-merge m1 (transaction_payment_rpc deps.client) m2 n e2 in
              let (down, up) = names_1 m1 n e1 in
              rw (← same) (
                λ k. elim (to k) [ inl a ↦ inl (down a) | inr b ↦ inr b ],
                λ k. elim k [ inl a ↦ from (inl (up a)) | inr b ↦ from (inr b) ],
              ),
          λ n (a, b).
              let (e, clash) =
                l.merge_clash m1 (transaction_payment_rpc deps.client) n ((names_1 m1 n e1).1 a)
                  b in
              clashes m2 e e2 clash,
        )
