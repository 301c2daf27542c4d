-- ===== src/Faucet/Claims.antt =====
-- The three places where pallets/pallet-qx-faucet/src/lib.rs decides on a claim, against each
-- other, and what a claim pays.
use qxchain.Prelude.{
  ℕ, ◌+◌, ◌<◌, ◌≤◌, ◌≡◌, refl, ◌≢◌, ◌↔◌, some, arith, true, saturating_add, sym, u32_max, ◌∙◌, ap,
  inl, inr,
}
use qxchain.Frame.{Frame, Key, ok, err, Result-cases}
use qxchain.Frame.Layer.{storage_layer_result}
use qxchain.Frame.Maps.{get-insert_self, get-insert_ne}
use qxchain.Currency.{Currency}
use qxchain.Faucet.{
  Config, Pallet, Call, TransactionValidity, InvalidTransaction, valid, invalid, can_claim,
  claim_count_of, validate_unsigned, remaining_claims, faucet_balance, dispatch, claim,
}
use qxchain.Faucet.Outcomes.{claim-ok_iff, dispatch-claim_ok, claim_failed, claim_ok}

module _ {AccountId : Type 0} ⦃account_key : Key AccountId⦄ (F : Frame AccountId)
    (C : Currency AccountId) (config : Config AccountId) where
  open F use {get, insert, Origin, ensure_none, unsigned, ensure_none-unsigned}
  open C use {
    Ledger, free_balance, existential_deposit, transfer, transfer_from, transfer_to, transfer_other,
    transfer_keeps_alive,
  }
  open config use {drip_amount, claim_cooldown, max_claims_per_account, faucet_pot}

  abbrev pub IsAccepted : TransactionValidity AccountId → AccountId → Type 0
  IsAccepted (valid t) account = t.provides ≡ account
  IsAccepted (invalid e) account = ⊥

  -- The pool accepts an unsigned claim, tagged with its account, exactly when `can_claim` holds,
  -- and accepts no other call of the pallet unsigned.
  pub validate_unsigned-can_claim :
      (now : ℕ) (s : Pallet F C config) (account : AccountId) (amount : ℕ)
      → (IsAccepted (validate_unsigned F C config now s (Call.claim account)) account
          ↔ (can_claim F C config now s account ≡ true))
        × (validate_unsigned F C config now s (Call.fund_faucet amount)
            ≡ invalid InvalidTransaction.call)
  unfolding validate_unsigned can_claim
  validate_unsigned-can_claim now s account amount = ((λ h. ground arith, λ h. ground arith), refl)

  -- A claim that the pool accepts can fail in the transfer only: included at that block, its result
  -- is that of the transfer of one drip from the pot to the account.
  pub claim-validate_unsigned :
      (now : ℕ) (s : Pallet F C config) (account : AccountId)
      → IsAccepted (validate_unsigned F C config now s (Call.claim account)) account
      → (dispatch F C config now unsigned (Call.claim account) s).0
        ≡ elim (transfer s.ledger faucet_pot account drip_amount) [ ok _ ↦ ok tt | err e ↦ err e ]
  unfolding dispatch
  claim-validate_unsigned now s account h =
      let a = (validate_unsigned-can_claim now s account 0).0.0 h in
      storage_layer_result F (claim F C config now unsigned account) s
      ∙ elim (Result-cases (transfer s.ledger faucet_pot account drip_amount)) [
        | inl (e, x) ↦
            rw x (claim_failed F C config now unsigned account s e ensure_none-unsigned a x)
        | inr (l, x) ↦ rw x (
            ap (λ r. r.0)
              (claim_ok F C config now unsigned account s l
                (record { not_signed = ensure_none-unsigned; allowed = a; transferred = x })))
      ]

  -- what a successful claim of an account leaves, beside the pot and every other account
  pub record PaysOut (now : ℕ) (account : AccountId) (s t : Pallet F C config) : Type 0 where
    pub pot : faucet_balance F C config t + drip_amount ≡ faucet_balance F C config s
    pub paid : free_balance t.ledger account ≡ free_balance s.ledger account + drip_amount
    pub others :
        (b : AccountId)
        → b ≢ account
        → b ≢ faucet_pot
        → free_balance t.ledger b ≡ free_balance s.ledger b
    pub stamped : get t.last_claim account ≡ some now
    pub counted : remaining_claims F C config t account + 1 ≡ remaining_claims F C config s account
    pub others_counted :
        (b : AccountId)
        → b ≢ account
        → (remaining_claims F C config t b ≡ remaining_claims F C config s b)
          × (get t.last_claim b ≡ get s.last_claim b)

  -- A successful claim for an account other than the pot moves one drip from the pot to it and
  -- touches no other balance, notes the block, and uses up one of the remaining claims of that
  -- account and of no other.
  pub claim-PaysOut :
      (now : ℕ) (o : Origin) (account : AccountId) (s : Pallet F C config)
      → faucet_pot ≢ account
      → max_claims_per_account ≤ u32_max
      → (dispatch F C config now o (Call.claim account) s).0 ≡ ok tt
      → PaysOut now account s (dispatch F C config now o (Call.claim account) s).1
  unfolding remaining_claims faucet_balance can_claim
  claim-PaysOut now o account s ne cap h =
      let (l, c) = (claim-ok_iff F C config now o account s).0 h in
      let count = saturating_add (claim_count_of F C config s account) 1 in
      rw (dispatch-claim_ok F C config now o account s l c) (record {
        pot = transfer_from s.ledger l faucet_pot account drip_amount c.transferred ne;
        paid = transfer_to s.ledger l faucet_pot account drip_amount c.transferred ne;
        others =
            λ b p q. transfer_other s.ledger l faucet_pot account b drip_amount c.transferred q p;
        stamped = get-insert_self F s.last_claim account now;
        counted = ground (arith, get-insert_self F s.claim_count account count, c.allowed, cap);
        others_counted = λ b p.
            let q : account ≢ b = λ e. p (sym e) in
            (
              ground (arith, get-insert_ne F s.claim_count account count b q),
              get-insert_ne F s.last_claim account now b q,
            );
      })

  -- The checks compare the pot with one drip, and the transfer must also leave the existential
  -- deposit: while the pot holds less than both together, and a drip is not zero, no claim for an
  -- account other than the pot succeeds.
  pub claim_near_empty :
      (now : ℕ) (o : Origin) (account : AccountId) (s : Pallet F C config)
      → faucet_pot ≢ account
      → 0 < drip_amount
      → faucet_balance F C config s < drip_amount + existential_deposit
      → (dispatch F C config now o (Call.claim account) s).0 ≢ ok tt
  unfolding faucet_balance
  claim_near_empty now o account s ne positive short h =
      let (l, c) = (claim-ok_iff F C config now o account s).0 h in
      absurd (
        omega (
          arith,
          transfer_from s.ledger l faucet_pot account drip_amount c.transferred ne,
          transfer_keeps_alive s.ledger l faucet_pot account drip_amount c.transferred ne positive,
          short,
        ))
