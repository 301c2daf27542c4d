-- ===== src/Faucet/Replay.antt =====
-- The events of pallets/pallet-qx-faucet/src/lib.rs as a record of its counters and of the pot:
-- what a reader of the events alone can tell.
use qxchain.Prelude.{
  ℕ, ◌+◌, ◌≤◌, ◌≡◌, refl, inl, inr, List, [], ◌∷◌, ◌++◌, ite, arith, saturating_add, u32_max,
}
use qxchain.Frame.{Frame, Key, update}
use qxchain.Frame.Layer.{storage_layer-keeps_ok}
use qxchain.Currency.{Currency}
use qxchain.Faucet.{
  Config, Pallet, Event, claimed, faucet_funded, Call, claim, fund_faucet, can_claim,
  claim_count_of, faucet_balance, dispatch, run, genesis,
}
use qxchain.Faucet.Outcomes.{paid_out, funded, Claims, Funds, claim_cases, fund_faucet_cases}

-- the claims of each account, and what came into the pot from others and went out to others
pub record Book (AccountId : Type 0) : Type 0 where
  pub claims : AccountId → ℕ
  pub received : ℕ
  pub given : ℕ

abbrev pub empty_book : {AccountId : Type 0} → Book AccountId
empty_book = record { claims = λ a. 0; received = 0; given = 0 }

module _ {AccountId : Type 0} ⦃account_key : Key AccountId⦄ (pot : AccountId) where
  abbrev pub note : Book AccountId → Event AccountId → Book AccountId
  note b (claimed account amount) = record b {
    claims = update b.claims account (b.claims account + 1);
    given = b.given + ite (account_key.dec pot account) 0 amount;
  }
  note b (faucet_funded who amount) = record b {
    received = b.received + ite (account_key.dec who pot) 0 amount;
  }

  unfoldable pub replay : List (Event AccountId) → Book AccountId → Book AccountId
  replay [] b = b
  replay (e ∷ es) b = replay es (note b e)

  replay-snoc :
      (es : List (Event AccountId)) (e : Event AccountId) (b : Book AccountId)
      → replay (es ++ e ∷ []) b ≡ note (replay es b) e
  unfolding replay
  replay-snoc [] e b = refl
  replay-snoc (x ∷ es) e b = replay-snoc es e (note b x)

module _ {AccountId : Type 0} ⦃account_key : Key AccountId⦄ (F : Frame AccountId)
    (C : Currency AccountId) (config : Config AccountId) (initial : C.Ledger) where
  open F use {get-insert, get-empty, Origin}
  open C use {Ledger, transfer_from, transfer_to, transfer_self, free_balance}
  open config use {drip_amount, max_claims_per_account, faucet_pot}

  -- what a book tells of the storage of a chain that began with the ledger `initial`
  pub record Tells (s : Pallet F C config) (b : Book AccountId) : Type 0 where
    pub counts : (a : AccountId) → claim_count_of F C config s a ≡ b.claims a
    pub pot : faucet_balance F C config s + b.given ≡ free_balance initial faucet_pot + b.received

  abbrev pub IsTold : Pallet F C config → Type 0
  IsTold s = Tells s (replay faucet_pot s.events empty_book)

  paid_out-IsTold :
      (now : ℕ) (o : Origin) (account : AccountId) (s : Pallet F C config) (l : Ledger)
      → max_claims_per_account ≤ u32_max
      → Claims F C config now o account s l
      → IsTold s
      → IsTold (paid_out F C config now account l s)
  unfolding can_claim faucet_balance
  paid_out-IsTold now o account s l cap c t = rw replay-snoc (record {
    counts = λ a. ground (
      arith,
      t.counts a,
      t.counts account,
      c.allowed,
      cap,
      get-insert s.claim_count account (saturating_add (claim_count_of F C config s account) 1) a,
    );
    pot = ground (
      arith,
      t.pot,
      transfer_from s.ledger l faucet_pot account drip_amount c.transferred,
      transfer_self s.ledger l faucet_pot drip_amount,
      c.transferred,
    );
  })

  funded-IsTold :
      (o : Origin) (amount : ℕ) (s : Pallet F C config) (who : AccountId) (l : Ledger)
      → Funds F C config o amount s who l
      → IsTold s
      → IsTold (funded F C config who amount l s)
  unfolding faucet_balance
  funded-IsTold o amount s who l c t = rw replay-snoc (record {
    counts = t.counts;
    pot = ground (
      arith,
      t.pot,
      transfer_to s.ledger l who faucet_pot amount c.transferred,
      transfer_self s.ledger l faucet_pot amount,
      c.transferred,
    );
  })

  dispatch-IsTold :
      (now : ℕ) (o : Origin) (c : Call AccountId) (s : Pallet F C config)
      → max_claims_per_account ≤ u32_max
      → IsTold s
      → IsTold (dispatch F C config now o c s).1
  unfolding dispatch
  dispatch-IsTold now o (Call.claim account) s cap t =
      storage_layer-keeps_ok F IsTold (claim F C config now o account) s t (λ a done.
        elim (claim_cases F C config now o account s) [
          | inl failed ↦ absurd (failed done)
          | inr (l, _, e, c) ↦ rw e (paid_out-IsTold now o account s l cap c t)
        ])
  dispatch-IsTold now o (Call.fund_faucet amount) s cap t =
      storage_layer-keeps_ok F IsTold (fund_faucet F C config o amount) s t (λ a done.
        elim (fund_faucet_cases F C config o amount s) [
          | inl failed ↦ absurd (failed done)
          | inr (who, l, _, e, c) ↦ rw e (funded-IsTold o amount s who l c t)
        ])

  run-IsTold :
      (cs : List (ℕ × Origin × Call AccountId)) (s : Pallet F C config)
      → max_claims_per_account ≤ u32_max
      → IsTold s
      → IsTold (run F C config cs s)
  unfolding run
  run-IsTold [] s cap t = t
  run-IsTold ((now, o, c) ∷ cs) s cap t =
      run-IsTold cs (dispatch F C config now o c s).1 cap (dispatch-IsTold now o c s cap t)

  -- On a new chain whose limit of claims is a `u32`, after any history of calls of the pallet, the
  -- events alone account for it: the counter of every account is the number of its `Claimed`
  -- events, and the pot holds what it had at genesis, plus what the events say that others funded,
  -- less what they say was paid to others.
  pub genesis_run-IsTold :
      (cs : List (ℕ × Origin × Call AccountId))
      → max_claims_per_account ≤ u32_max
      → IsTold (run F C config cs (genesis F C config initial))
  unfolding genesis replay faucet_balance
  genesis_run-IsTold cs cap =
      run-IsTold cs (genesis F C config initial) cap
        (record { counts = λ a. ground (arith, get-empty {V = ℕ} a); pot = refl })
