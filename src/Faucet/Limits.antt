-- ===== src/Faucet/Limits.antt =====
-- How often an account can claim from pallets/pallet-qx-faucet/src/lib.rs, over any history of
-- calls.
use qxchain.Prelude.{
  ℕ, ◌+◌, ◌≤◌, ◌≡◌, refl, inl, inr, List, [], ◌∷◌, arith, saturating_add, ite, u32_max,
}
use qxchain.Frame.{Frame, Key, Result, ok}
use qxchain.Frame.Layer.{storage_layer_cases}
use qxchain.Currency.{Currency}
use qxchain.Faucet.{
  Config, Pallet, Call, claim, fund_faucet, can_claim, claim_count_of, remaining_claims, dispatch,
  run,
}
use qxchain.Faucet.Outcomes.{paid_out, Claims, claim_cases, fund_faucet_cases}

module _ {AccountId : Type 0} ⦃account_key : Key AccountId⦄ (F : Frame AccountId)
    (C : Currency AccountId) (config : Config AccountId) where
  open F use {get, insert, get-insert, get-empty, Origin}
  open C use {Ledger}
  open config use {claim_cooldown, max_claims_per_account}

  -- 1 for a claim for the account that succeeded, 0 for all else
  abbrev pub is_paid : AccountId → Call AccountId → Result (Unit {0}) → ℕ
  is_paid account (Call.claim b) (ok _) = ite (account_key.dec b account) 1 0
  is_paid account _ _ = 0

  -- the number of successful claims for an account in a history
  unfoldable pub paid : AccountId → List (ℕ × Origin × Call AccountId) → Pallet F C config → ℕ
  paid account [] s = 0
  paid account ((now, o, c) ∷ cs) s =
      let (r, t) = dispatch F C config now o c s in is_paid account c r + paid account cs t

  -- the counter of the account went up by `n` from `s` to `t`, and did not pass the limit
  pub record Counts (account : AccountId) (n : ℕ) (s t : Pallet F C config) : Type 0 where
    pub added : claim_count_of F C config t account ≡ claim_count_of F C config s account + n
    pub capped :
        claim_count_of F C config s account ≤ max_claims_per_account
        → claim_count_of F C config t account ≤ max_claims_per_account

  paid_out-Counts :
      (account b : AccountId) (now : ℕ) (o : Origin) (s : Pallet F C config) (l : Ledger)
      → max_claims_per_account ≤ u32_max
      → Claims F C config now o b s l
      → Counts account (ite (account_key.dec b account) 1 0) s (paid_out F C config now b l s)
  unfolding can_claim
  paid_out-Counts account b now o s l cap c =
      let e =
        get-insert s.claim_count b (saturating_add (claim_count_of F C config s b) 1) account in
      record {
        added = ground (arith, e, c.allowed, cap);
        capped = λ h. ground (arith, e, c.allowed, cap, h);
      }

  same-Counts :
      (account : AccountId) (s t : Pallet F C config)
      → t.claim_count ≡ s.claim_count
      → Counts account 0 s t
  same-Counts account s t e = record {
    added = ground (arith, e);
    capped = λ h. ground (arith, e, h);
  }

  dispatch-Counts :
      (account : AccountId) (now : ℕ) (o : Origin) (c : Call AccountId) (s : Pallet F C config)
      → max_claims_per_account ≤ u32_max
      → let (r, t) = dispatch F C config now o c s in Counts account (is_paid account c r) s t
  unfolding dispatch
  dispatch-Counts account now o (Call.claim b) s cap =
      storage_layer_cases F (λ x. Counts account (is_paid account (Call.claim b) x.0) s x.1)
        (claim F C config now o b) s (λ e. same-Counts account s s refl)
        (λ a done. elim (claim_cases F C config now o b s) [
          | inl failed ↦ absurd (failed done)
          | inr (l, d, e, c) ↦ rw (d, e) (paid_out-Counts account b now o s l cap c)
        ])
  dispatch-Counts account now o (Call.fund_faucet amount) s cap =
      storage_layer_cases F (λ x. Counts account 0 s x.1) (fund_faucet F C config o amount) s
        (λ e. same-Counts account s s refl)
        (λ a done. elim (fund_faucet_cases F C config o amount s) [
          | inl failed ↦ absurd (failed done)
          | inr (who, l, _, e, c) ↦ rw e (same-Counts account s _ refl)
        ])

  pub run-Counts :
      (account : AccountId) (cs : List (ℕ × Origin × Call AccountId)) (s : Pallet F C config)
      → max_claims_per_account ≤ u32_max
      → Counts account (paid account cs s) s (run F C config cs s)
  unfolding run paid
  run-Counts account [] s cap = same-Counts account s s refl
  run-Counts account ((now, o, c) ∷ cs) s cap =
      let first = dispatch-Counts account now o c s cap in
      let rest = run-Counts account cs (dispatch F C config now o c s).1 cap in
      record {
        added = omega (arith, first.added, rest.added);
        capped = λ h. rest.capped (first.capped h);
      }

  -- Over any history of calls from a storage in which the account is within its limit, the claims
  -- that succeed for the account are exactly those that `remaining_claims` goes down by, so there
  -- are at most `remaining_claims` of them.
  pub paid-remaining_claims :
      (account : AccountId) (cs : List (ℕ × Origin × Call AccountId)) (s : Pallet F C config)
      → max_claims_per_account ≤ u32_max
      → claim_count_of F C config s account ≤ max_claims_per_account
      → paid account cs s + remaining_claims F C config (run F C config cs s) account
        ≡ remaining_claims F C config s account
  unfolding remaining_claims
  paid-remaining_claims account cs s cap h =
      let c = run-Counts account cs s cap in
      let below = c.capped h in omega (arith, c.added, below, h)
