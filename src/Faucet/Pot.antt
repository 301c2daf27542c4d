-- ===== src/Faucet/Pot.antt =====
-- What goes into and out of the pot of pallets/pallet-qx-faucet/src/lib.rs.
use qxchain.Prelude.{ℕ, ◌+◌, ◌≡◌, refl, inl, inr, Option, some, none, List, [], ◌∷◌, arith, ite}
use qxchain.Frame.{Frame, Key, Result, ok}
use qxchain.Frame.Layer.{storage_layer_cases}
use qxchain.Currency.{Currency}
use qxchain.Faucet.{faucet_balance, Config, Pallet, Call, claim, fund_faucet, dispatch, run}
use qxchain.Faucet.Outcomes.{claim_cases, fund_faucet_cases}

module _ {AccountId : Type 0} ⦃account_key : Key AccountId⦄ (F : Frame AccountId)
    (C : Currency AccountId) (config : Config AccountId) where
  open F use {Origin, ensure_signed}
  open C use {Ledger, transfer_from, transfer_to, transfer_self, free_balance}
  open config use {drip_amount, faucet_pot}

  -- what a call that ended so took from the pot, and what it brought
  abbrev pub dispensed_by : Call AccountId → Result (Unit {0}) → ℕ
  dispensed_by (Call.claim b) (ok _) = ite (account_key.dec faucet_pot b) 0 drip_amount
  dispensed_by _ _ = 0

  abbrev pub amount_of : Option AccountId → ℕ → ℕ
  amount_of none amount = 0
  amount_of (some who) amount = ite (account_key.dec who faucet_pot) 0 amount

  abbrev pub contributed_by : Origin → Call AccountId → Result (Unit {0}) → ℕ
  contributed_by o (Call.fund_faucet amount) (ok _) = amount_of (ensure_signed o) amount
  contributed_by o _ _ = 0

  unfoldable pub dispensed : List (ℕ × Origin × Call AccountId) → Pallet F C config → ℕ
  dispensed [] s = 0
  dispensed ((now, o, c) ∷ cs) s =
      let (r, t) = dispatch F C config now o c s in dispensed_by c r + dispensed cs t

  unfoldable pub contributed : List (ℕ × Origin × Call AccountId) → Pallet F C config → ℕ
  contributed [] s = 0
  contributed ((now, o, c) ∷ cs) s =
      let (r, t) = dispatch F C config now o c s in contributed_by o c r + contributed cs t

  Balances :
      Origin → Call AccountId → Pallet F C config → Result (Unit {0}) × Pallet F C config → Type 0
  unfolding faucet_balance
  Balances o c s (r, t) =
      faucet_balance F C config t + dispensed_by c r
      ≡ faucet_balance F C config s + contributed_by o c r

  dispatch-Balances :
      (now : ℕ) (o : Origin) (c : Call AccountId) (s : Pallet F C config)
      → Balances o c s (dispatch F C config now o c s)
  unfolding dispatch Balances faucet_balance
  dispatch-Balances now o (Call.claim b) s =
      storage_layer_cases F (Balances o (Call.claim b) s) (claim F C config now o b) s (λ e. refl)
        (λ a done. elim (claim_cases F C config now o b s) [
          | inl failed ↦ absurd (failed done)
          | inr (l, d, e, c) ↦
              rw (d, e)
                (ground (
                  arith,
                  transfer_from s.ledger l faucet_pot b drip_amount c.transferred,
                  transfer_self s.ledger l faucet_pot drip_amount,
                  c.transferred,
                ))
        ])
  dispatch-Balances now o (Call.fund_faucet amount) s =
      storage_layer_cases F (Balances o (Call.fund_faucet amount) s)
        (fund_faucet F C config o amount) s (λ e. refl)
        (λ a done. elim (fund_faucet_cases F C config o amount s) [
          | inl failed ↦ absurd (failed done)
          | inr (who, l, d, e, c) ↦
              rw (d, e)
                (ground (
                  arith,
                  c.signer,
                  transfer_to s.ledger l who faucet_pot amount c.transferred,
                  transfer_self s.ledger l faucet_pot amount,
                  c.transferred,
                ))
        ])

  -- Over any history of calls of the pallet the pot loses one drip for each successful claim for
  -- another account and gains what other accounts fund, and changes by nothing else.
  pub faucet_balance-run :
      (cs : List (ℕ × Origin × Call AccountId)) (s : Pallet F C config)
      → faucet_balance F C config (run F C config cs s) + dispensed cs s
        ≡ faucet_balance F C config s + contributed cs s
  unfolding run dispensed contributed Balances
  faucet_balance-run [] s = refl
  faucet_balance-run ((now, o, c) ∷ cs) s =
      omega (
        arith,
        dispatch-Balances now o c s,
        faucet_balance-run cs (dispatch F C config now o c s).1,
      )
