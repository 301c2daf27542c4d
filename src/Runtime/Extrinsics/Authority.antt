-- ===== src/Runtime/Extrinsics/Authority.antt =====
-- What the sender of an extrinsic of runtime/src/lib.rs can reach.
use qxchain.Prelude.{
  ℕ, ◌≡◌, refl, ◌⊎◌, inl, inr, true, false, Option, some, List, [], ◌∷◌, arith, ◌∙◌,
}
use qxchain.Frame.{Frame, Key, nat_key, bytes_key}
use qxchain.Currency.{Currency}
use qxchain.Faucet
use qxchain.Faucet.{valid, ValidTransaction}
use qxchain.Kilt.Access.{Untouched, Untouched-refl, Untouched-trans, dispatch-Untouched}
use qxchain.Ai.Access.{allowed_models-dispatch}
use qxchain.Runtime.{
  RuntimeCall, qx_kilt_permissions, qx_ai, qx_faucet, State, dispatch, kilt_config, ai_config,
  kilt_permissions_impl, faucet_config,
}
use qxchain.Runtime.Extrinsics.{
  UncheckedExtrinsic, signed, sudo, sudo_as, bare, function, validate_unsigned, Grants, Executive,
  Extrinsics, run_extrinsics,
}

module _ {AccountId : Type 0} ⦃account_key : Key AccountId⦄ (F : Frame AccountId)
    (C : Currency AccountId) (account_id32 : List ℕ → AccountId) where
  open F use {Map, Origin, ensure_root, ensure_root-signed, ensure_root-unsigned, unsigned}

  -- what only root changes: credentials, the governance DID, the entries of the workers there are,
  -- and the models
  pub record IsKept (s t : State F C account_id32) : Type 0 where
    pub kilt : Untouched F s.kilt t.kilt
    pub models : t.ai.allowed_models ≡ s.ai.allowed_models

  IsKept-refl : (s : State F C account_id32) → IsKept s s
  IsKept-refl s = record { kilt = Untouched-refl F s.kilt; models = refl }

  dispatch-IsKept :
      (now : ℕ) (o : Origin) (c : RuntimeCall AccountId) (s : State F C account_id32)
      → ensure_root o ≡ false
      → IsKept s (dispatch F C account_id32 now o c s).1
  unfolding dispatch
  dispatch-IsKept now o (qx_kilt_permissions c) s h = record {
    kilt = dispatch-Untouched F kilt_config now o c s.kilt h;
    models = refl;
  }
  dispatch-IsKept now o (qx_ai c) s h = record {
    kilt = Untouched-refl F s.kilt;
    models =
        allowed_models-dispatch F (kilt_permissions_impl F C account_id32 now s) ai_config now o c
          s.ai h;
  }
  dispatch-IsKept now o (qx_faucet c) s h = record { kilt = Untouched-refl F s.kilt; models = refl }

  -- the extrinsic is not a `Sudo::sudo` of the account with the sudo key
  abbrev pub NotSudo : Option AccountId → UncheckedExtrinsic AccountId → Type 0
  NotSudo key (sudo a c) = ¬ (key ≡ some a)
  NotSudo key _ = Unit

  abbrev pub NoSudo : Extrinsics F C account_id32 → Type 0
  NoSudo [] = Unit
  NoSudo ((_, key, x) ∷ xs) = NotSudo key x × NoSudo xs

  pub Grants-NotSudo :
      (now : ℕ) (key : Option AccountId) (s : State F C account_id32)
      (x : UncheckedExtrinsic AccountId) (o : Origin)
      → Grants F C account_id32 now key s x o
      → NotSudo key x
      → ensure_root o ≡ false
  Grants-NotSudo now key s (signed a c) o g h = rw (g, ensure_root-signed)
  Grants-NotSudo now key s (sudo a c) o g h = absurd (h g.0)
  Grants-NotSudo now key s (sudo_as a who c) o g h = rw (g.1, ensure_root-signed)
  Grants-NotSudo now key s (bare c) o g h = rw (g.0, ensure_root-unsigned)

  -- What the runtime accepts unsigned is a claim for which `can_claim` holds.
  accepted :
      (now : ℕ) (c : RuntimeCall AccountId) (s : State F C account_id32)
      (t : ValidTransaction AccountId)
      → validate_unsigned F C account_id32 now c s ≡ some (valid t)
      → (account : AccountId) × (c ≡ qx_faucet (Faucet.Call.claim account))
        × (Faucet.can_claim F C (faucet_config account_id32) now s.faucet account ≡ true)
  unfolding validate_unsigned Faucet.validate_unsigned Faucet.can_claim
  accepted now (qx_kilt_permissions c) s t h = cc
  accepted now (qx_ai c) s t h = cc
  accepted now (qx_faucet (Faucet.Call.fund_faucet amount)) s t h = cc
  accepted now (qx_faucet (Faucet.Call.claim account)) s t h = (account, refl, ground (arith, h))

  module _ (E : Executive F C account_id32) where
    pub apply_extrinsic-IsKept :
        (now : ℕ) (key : Option AccountId) (x : UncheckedExtrinsic AccountId)
        (s : State F C account_id32)
        → NotSudo key x
        → IsKept s (E.apply_extrinsic now key x s)
    apply_extrinsic-IsKept now key x s h = elim (E.apply_extrinsic_lem now key x s) [
      | inl e ↦ rw e (IsKept-refl s)
      | inr (o, g, e) ↦
          rw e (dispatch-IsKept now o (function x) s (Grants-NotSudo now key s x o g h))
    ]

    -- Without the sudo key no one reaches what is root's: after any history of extrinsics with
    -- calls of the three pallets, none of which is a `sudo` of the account that has the key
    -- then, the credentials, the governance DID, the entries of all workers that there were and
    -- the models are as before.
    pub run_extrinsics-IsKept :
        (xs : Extrinsics F C account_id32) (s : State F C account_id32)
        → NoSudo xs
        → IsKept s (run_extrinsics F C account_id32 E xs s)
    unfolding run_extrinsics
    run_extrinsics-IsKept [] s h = IsKept-refl s
    run_extrinsics-IsKept ((now, key, x) ∷ xs) s h =
        let t = E.apply_extrinsic now key x s in
        let first = apply_extrinsic-IsKept now key x s h.0 in
        let rest = run_extrinsics-IsKept xs t h.1 in
        record {
          kilt = Untouched-trans F s.kilt t.kilt _ first.kilt rest.kilt;
          models = rest.models ∙ first.models;
        }

    -- An extrinsic that no one signed does nothing, or it is a claim from the faucet for an account
    -- of which `can_claim` holds, and does what the claim does.
    pub apply_extrinsic-bare :
        (now : ℕ) (key : Option AccountId) (c : RuntimeCall AccountId) (s : State F C account_id32)
        → let t = E.apply_extrinsic now key (bare c) s in
          (t ≡ s)
          ⊎ ((account : AccountId) × (c ≡ qx_faucet (Faucet.Call.claim account))
              × (Faucet.can_claim F C (faucet_config account_id32) now s.faucet account ≡ true)
              × (t ≡ (dispatch F C account_id32 now unsigned c s).1))
    apply_extrinsic-bare now key c s = elim (E.apply_extrinsic_lem now key (bare c) s) [
      | inl e ↦ inl e
      | inr (o, (p, t, v), e) ↦
          let (account, claims, can) = accepted now c s t v in inr (account, claims, can, rw p at e)
    ]
