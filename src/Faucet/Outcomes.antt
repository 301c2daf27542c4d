-- ===== src/Faucet/Outcomes.antt =====
-- What the calls of pallets/pallet-qx-faucet/src/lib.rs do, by how they end.
use qxchain.Prelude.{
  ℕ, ◌≡◌, refl, ltb, leb, ap, ◌≢◌, ◌⊎◌, inl, inr, ◌↔◌, some, [], ◌∷◌, ◌++◌, arith, true,
  saturating_add, sym, ◌∙◌,
}
use qxchain.Errors.{DispatchError}
use qxchain.Frame.{Frame, Key, ok, err, Result-cases}
use qxchain.Frame.Layer.{storage_layer_result, storage_layer_ok}
use qxchain.Currency.{Currency}
use qxchain.Faucet.{
  Config, Pallet, Call, claimed, faucet_funded, is_cooled_down, claim, fund_faucet, can_claim,
  claim_count_of, dispatch,
}

module _ {AccountId : Type 0} ⦃account_key : Key AccountId⦄ (F : Frame AccountId)
    (C : Currency AccountId) (config : Config AccountId) where
  open F use {get, insert, Origin, ensure_signed, ensure_none}
  open C use {Ledger, free_balance, transfer}
  open config use {drip_amount, claim_cooldown, max_claims_per_account, faucet_pot}

  -- the storage after a successful `claim` that left the ledger `l`
  abbrev pub paid_out : ℕ → AccountId → Ledger → Pallet F C config → Pallet F C config
  paid_out now account l s = record s {
    ledger = l;
    last_claim = insert s.last_claim account now;
    claim_count =
        insert s.claim_count account (saturating_add (claim_count_of F C config s account) 1);
    events = s.events ++ claimed account drip_amount ∷ [];
  }

  pub record Claims (now : ℕ) (o : Origin) (account : AccountId) (s : Pallet F C config)
      (l : Ledger) : Type 0 where
    pub not_signed : ensure_none o ≡ true
    pub allowed : can_claim F C config now s account ≡ true
    pub transferred : transfer s.ledger faucet_pot account drip_amount ≡ ok l

  pub claim_ok :
      (now : ℕ) (o : Origin) (account : AccountId) (s : Pallet F C config) (l : Ledger)
      → Claims now o account s l
      → claim F C config now o account s ≡ (ok tt, paid_out now account l s)
  unfolding claim can_claim
  claim_ok now o account s l c = ground (arith, c)

  -- what `can_claim` says of the three checks of `claim`
  record Passes (now : ℕ) (account : AccountId) (s : Pallet F C config) : Type 0 where
    cooled_down : is_cooled_down F C config now (get s.last_claim account) ≡ true
    below_limit : ltb (claim_count_of F C config s account) max_claims_per_account ≡ true
    funded_pot : leb drip_amount (free_balance s.ledger faucet_pot) ≡ true

  can_claim-Passes :
      (now : ℕ) (account : AccountId) (s : Pallet F C config)
      → can_claim F C config now s account ≡ true
      → Passes now account s
  unfolding can_claim
  can_claim-Passes now account s a = record {
    cooled_down = ground (arith, a);
    below_limit = ground (arith, a);
    funded_pot = ground (arith, a);
  }

  pub claim_failed :
      (now : ℕ) (o : Origin) (account : AccountId) (s : Pallet F C config) (e : DispatchError)
      → ensure_none o ≡ true
      → can_claim F C config now s account ≡ true
      → transfer s.ledger faucet_pot account drip_amount ≡ err e
      → (claim F C config now o account s).0 ≡ err e
  unfolding claim
  claim_failed now o account s e n a x =
      let p = can_claim-Passes now account s a in
      rw (n, p.cooled_down, p.below_limit, p.funded_pot, x) refl

  claim_needs :
      (now : ℕ) (o : Origin) (account : AccountId) (s : Pallet F C config)
      → (claim F C config now o account s).0 ≡ ok tt
      → (l : Ledger) × Claims now o account s l
  unfolding claim can_claim
  claim_needs now o account s h =
      elim (Result-cases (transfer s.ledger faucet_pot account drip_amount)) [
        | inl (e, x) ↦ absurd (ground (arith, h, x))
        | inr (l, x) ↦ (l, ground (arith, h, x))
      ]

  pub claim_cases :
      (now : ℕ) (o : Origin) (account : AccountId) (s : Pallet F C config)
      → let (r, t) = claim F C config now o account s in
        (r ≢ ok tt)
        ⊎ ((l : Ledger) × (r ≡ ok tt) × (t ≡ paid_out now account l s) × Claims now o account s l)
  claim_cases now o account s = elim (Result-cases (claim F C config now o account s).0) [
    | inl (e, h) ↦ inl (λ p. cc)
    | inr (tt, h) ↦
        let (l, c) = claim_needs now o account s h in
        inr (l, h, ap (λ x. x.1) (claim_ok now o account s l c), c)
  ]

  -- the storage after a successful `fund_faucet` that left the ledger `l`
  abbrev pub funded : AccountId → ℕ → Ledger → Pallet F C config → Pallet F C config
  funded who amount l s = record s {
    ledger = l;
    events = s.events ++ faucet_funded who amount ∷ [];
  }

  pub record Funds (o : Origin) (amount : ℕ) (s : Pallet F C config) (who : AccountId) (l : Ledger)
      : Type 0 where
    pub signer : ensure_signed o ≡ some who
    pub transferred : transfer s.ledger who faucet_pot amount ≡ ok l

  pub fund_faucet_cases :
      (o : Origin) (amount : ℕ) (s : Pallet F C config)
      → let (r, t) = fund_faucet F C config o amount s in
        (r ≢ ok tt)
        ⊎ ((who : AccountId) × (l : Ledger) × (r ≡ ok tt)
            × (t ≡ funded who amount l s)
            × Funds o amount s who l)
  unfolding fund_faucet
  fund_faucet_cases o amount s = ground arith

  -- The result of a dispatched `claim` is `Ok` exactly when the origin is none, `can_claim` holds,
  -- and the transfer out of the pot succeeds.
  pub claim-ok_iff :
      (now : ℕ) (o : Origin) (account : AccountId) (s : Pallet F C config)
      → ((dispatch F C config now o (Call.claim account) s).0 ≡ ok tt)
        ↔ ((l : Ledger) × Claims now o account s l)
  unfolding dispatch
  claim-ok_iff now o account s =
      let m = claim F C config now o account in
      (
        λ h. claim_needs now o account s (sym (storage_layer_result F m s) ∙ h),
        λ (l, c). storage_layer_result F m s ∙ ap (λ x. x.0) (claim_ok now o account s l c),
      )

  pub dispatch-claim_ok :
      (now : ℕ) (o : Origin) (account : AccountId) (s : Pallet F C config) (l : Ledger)
      → Claims now o account s l
      → dispatch F C config now o (Call.claim account) s ≡ (ok tt, paid_out now account l s)
  unfolding dispatch
  dispatch-claim_ok now o account s l c =
      let m = claim F C config now o account in
      let e = claim_ok now o account s l c in storage_layer_ok F m s tt (ap (λ x. x.0) e) ∙ e
