-- ===== src/Tests/Extrinsics.antt =====
-- Transactions of runtime/src/lib.rs on concrete data: an `Executive` that lets everything through
-- that it may, and a history in which account 3 has the sudo key.
use qxchain.Prelude.{ℕ, ◌≡◌, refl, ◌⊎◌, inl, inr, true, Option, some, none, [], ◌∷◌, ite, arith}
use qxchain.Frame.{nat_key, bytes_key}
use qxchain.Kilt
use qxchain.Kilt.{generate_did}
use qxchain.Ai
use qxchain.Faucet
use qxchain.Faucet.{TransactionValidity, ValidTransaction, valid, invalid}
use qxchain.Runtime.{
  RuntimeCall, qx_kilt_permissions, qx_ai, qx_faucet, State, dispatch, faucet_config, genesis,
}
use qxchain.Runtime.Extrinsics.{
  UncheckedExtrinsic, signed, sudo, sudo_as, bare, function, validate_unsigned, Grants, Executive,
  Extrinsics, run_extrinsics,
}
use qxchain.Runtime.Extrinsics.Authority.{IsKept, run_extrinsics-IsKept, apply_extrinsic-bare}
use qxchain.Runtime.Extrinsics.Idle.{NoCredentials, run_extrinsics-idle}
use qxchain.Tests.World.{Origin, root, unsigned, frame, balances}
use qxchain.Tests.Runtime.{pot, chain, staffed}

-- `t` for the account with the key
abbrev by_key : {A : Type 0} → Option ℕ → ℕ → A → A → A
by_key none a t s = s
by_key (some k) a t s = ite (nat_key.dec k a) t s

by_key_cases :
    {A : Type 0} (key : Option ℕ) (a : ℕ) (t s : A)
    → (by_key key a t s ≡ s) ⊎ ((key ≡ some a) × (by_key key a t s ≡ t))
by_key_cases none a t s = inl refl
by_key_cases (some k) a t s = ground arith

-- `t` for an accepted transaction
abbrev if_valid : {A : Type 0} → Option (TransactionValidity ℕ) → A → A → A
if_valid (some (valid u)) t s = t
if_valid _ t s = s

if_valid_cases :
    {A : Type 0} (v : Option (TransactionValidity ℕ)) (t s : A)
    → (if_valid v t s ≡ s)
      ⊎ ((u : ValidTransaction ℕ) × (v ≡ some (valid u)) × (if_valid v t s ≡ t))
if_valid_cases none t s = inl refl
if_valid_cases (some (valid u)) t s = inr (u, refl, refl)
if_valid_cases (some (invalid e)) t s = inl refl

abbrev Chain : Type 0
Chain = State frame balances pot

apply : ℕ → Option ℕ → UncheckedExtrinsic ℕ → Chain → Chain
apply now key (signed a c) s = (dispatch frame balances pot now (Origin.signed a) c s).1
apply now key (sudo a c) s = by_key key a (dispatch frame balances pot now root c s).1 s
apply now key (sudo_as a who c) s =
    by_key key a (dispatch frame balances pot now (Origin.signed who) c s).1 s
apply now key (bare c) s =
    if_valid (validate_unsigned frame balances pot now c s)
      (dispatch frame balances pot now unsigned c s).1 s

apply_lem :
    (now : ℕ) (key : Option ℕ) (x : UncheckedExtrinsic ℕ) (s : Chain)
    → (apply now key x s ≡ s)
      ⊎ ((o : Origin ℕ) × Grants frame balances pot now key s x o
          × (apply now key x s ≡ (dispatch frame balances pot now o (function x) s).1))
unfolding apply
apply_lem now key (signed a c) s = inr (Origin.signed a, refl, refl)
apply_lem now key (sudo a c) s =
    elim (by_key_cases key a (dispatch frame balances pot now root c s).1 s) [
      | inl e ↦ inl e
      | inr (p, e) ↦ inr (root, (p, refl), e)
    ]
apply_lem now key (sudo_as a who c) s =
    elim (by_key_cases key a (dispatch frame balances pot now (Origin.signed who) c s).1 s) [
      | inl e ↦ inl e
      | inr (p, e) ↦ inr (Origin.signed who, (p, refl), e)
    ]
apply_lem now key (bare c) s =
    elim (if_valid_cases (validate_unsigned frame balances pot now c s)
      (dispatch frame balances pot now unsigned c s).1 s) [
        | inl e ↦ inl e
        | inr (u, v, e) ↦ inr (unsigned, (refl, u, v), e)
      ]

abbrev executive : Executive frame balances pot
executive = record { apply_extrinsic = apply; apply_extrinsic_lem = apply_lem }

-- account 9 tries what is root's, and account 3 acts for account 8
abbrev extrinsics : Extrinsics frame balances pot
extrinsics =
    (
      1,
      some 3,
      sudo 9 (qx_kilt_permissions (Kilt.Call.revoke_worker_credential (generate_did frame 7))),
    )
    ∷ (2, some 3, signed 9 (qx_ai (Ai.Call.add_allowed_model 0 [] [])))
    ∷ (3, some 3, bare (qx_faucet (Faucet.Call.claim 1)))
    ∷ (4, some 3, sudo_as 3 8 (qx_ai (Ai.Call.update_ai_worker_status true)))
    ∷ []

not_nine : ¬ ◌≡◌ {A = Option ℕ} (some 3) (some 9)
not_nine e = absurd (ground (arith, e))

run_extrinsics-IsKept_example :
    IsKept frame balances pot staffed
      (run_extrinsics frame balances pot executive extrinsics staffed)
run_extrinsics-IsKept_example =
    run_extrinsics-IsKept frame balances pot executive extrinsics staffed
      (not_nine, (tt, (tt, (tt, tt))))

apply_extrinsic-bare_example :
    let c : RuntimeCall ℕ = qx_faucet (Faucet.Call.claim 1) in
    let t = executive.apply_extrinsic 3 (some 3) (bare c) staffed in
    (t ≡ staffed)
    ⊎ ((account : ℕ) × (c ≡ qx_faucet (Faucet.Call.claim account))
        × (Faucet.can_claim frame balances (faucet_config pot) 3 staffed.faucet account ≡ true)
        × (t ≡ (dispatch frame balances pot 3 unsigned c staffed).1))
apply_extrinsic-bare_example =
    apply_extrinsic-bare frame balances pot executive 3 (some 3) (qx_faucet (Faucet.Call.claim 1))
      staffed

-- account 1 asks worker 7, who answers and says that it is online, before there is a credential
abbrev too_early : Extrinsics frame balances pot
too_early =
    (1, some 3, signed 7 (qx_kilt_permissions (Kilt.Call.create_worker_did [] [])))
    ∷ (2, some 3, signed 1 (qx_ai (Ai.Call.submit_request 7 [] 16)))
    ∷ (3, some 3, signed 7 (qx_ai (Ai.Call.submit_inference 0 [])))
    ∷ (4, some 3, sudo_as 3 7 (qx_ai (Ai.Call.update_ai_worker_status true)))
    ∷ []

run_extrinsics-idle_example :
    let t = run_extrinsics frame balances pot executive too_early chain in
    (t.ai ≡ chain.ai) × NoCredentials frame balances pot t
unfolding genesis Kilt.genesis
run_extrinsics-idle_example =
    run_extrinsics-idle frame balances pot executive too_early chain (tt, (tt, (tt, (tt, tt))))
      (λ did. refl)
