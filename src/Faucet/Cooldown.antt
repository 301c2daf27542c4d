-- ===== src/Faucet/Cooldown.antt =====
-- How soon an account can claim again from pallets/pallet-qx-faucet/src/lib.rs.
use qxchain.Prelude.{
  ℕ, ◌≤◌, ◌≡◌, inl, inr, Option, some, none, List, [], ◌∷◌, arith, saturating_add,
}
use qxchain.Frame.{Frame, Key, ok}
use qxchain.Frame.Maps.{get-insert_self}
use qxchain.Frame.Layer.{storage_layer_cases}
use qxchain.Currency.{Currency}
use qxchain.Faucet.{Config, Pallet, Call, claim, fund_faucet, can_claim, dispatch, run}
use qxchain.Faucet.Outcomes.{claim_cases, fund_faucet_cases, claim-ok_iff, dispatch-claim_ok}

-- the block of the last claim, if there is one, is this one or later
abbrev pub IsSince : ℕ → Option ℕ → Type 0
IsSince now none = ⊥
IsSince now (some last) = now ≤ last

-- every call of the history is at this block or later
abbrev pub AllSince : {A B : Type 0} → ℕ → List (ℕ × A × B) → Type 0
AllSince now [] = Unit
AllSince now ((later, _, _) ∷ cs) = (now ≤ later) × AllSince now cs

module _ {AccountId : Type 0} ⦃account_key : Key AccountId⦄ (F : Frame AccountId)
    (C : Currency AccountId) (config : Config AccountId) where
  open F use {get, insert, get-insert, Origin}
  open config use {claim_cooldown}

  abbrev ClaimedSince : ℕ → AccountId → Pallet F C config → Type 0
  ClaimedSince now account s = IsSince now (get s.last_claim account)

  dispatch-ClaimedSince :
      (now later : ℕ) (account : AccountId) (o : Origin) (c : Call AccountId)
      (s : Pallet F C config)
      → now ≤ later
      → ClaimedSince now account s
      → ClaimedSince now account (dispatch F C config later o c s).1
  unfolding dispatch
  dispatch-ClaimedSince now later account o (Call.claim b) s since h =
      storage_layer_cases F (λ x. ClaimedSince now account x.1) (claim F C config later o b) s
        (λ e. h)
        (λ a done. elim (claim_cases F C config later o b s) [
          | inl failed ↦ absurd (failed done)
          | inr (l, d, e, c) ↦
              rw e (ground (arith, get-insert s.last_claim b later account, h, since))
        ])
  dispatch-ClaimedSince now later account o (Call.fund_faucet amount) s since h =
      storage_layer_cases F (λ x. ClaimedSince now account x.1) (fund_faucet F C config o amount) s
        (λ e. h)
        (λ a done. elim (fund_faucet_cases F C config o amount s) [
          | inl failed ↦ absurd (failed done)
          | inr (who, l, _, e, c) ↦ rw e h
        ])

  run-ClaimedSince :
      (now : ℕ) (account : AccountId) (cs : List (ℕ × Origin × Call AccountId))
      (s : Pallet F C config)
      → AllSince now cs
      → ClaimedSince now account s
      → ClaimedSince now account (run F C config cs s)
  unfolding run
  run-ClaimedSince now account [] s since h = h
  run-ClaimedSince now account ((later, o, c) ∷ cs) s since h =
      run-ClaimedSince now account cs (dispatch F C config later o c s).1 since.1
        (dispatch-ClaimedSince now later account o c s since.0 h)

  -- After a claim for an account that succeeded at block `now`, and any history of calls at that
  -- block or later, no claim for the account succeeds before the cooldown is over.
  pub claim-cooldown :
      (now later : ℕ) (o o' : Origin) (account : AccountId)
      (cs : List (ℕ × Origin × Call AccountId)) (s : Pallet F C config)
      → AllSince now cs
      → (dispatch F C config now o (Call.claim account) s).0 ≡ ok tt
      → let t = (dispatch F C config now o (Call.claim account) s).1 in
        (dispatch F C config later o' (Call.claim account) (run F C config cs t)).0 ≡ ok tt
        → saturating_add now claim_cooldown ≤ later
  unfolding can_claim
  claim-cooldown now later o o' account cs s since first second =
      let (l, c) = (claim-ok_iff F C config now o account s).0 first in
      let t = (dispatch F C config now o (Call.claim account) s).1 in
      let noted : ClaimedSince now account t =
        rw (dispatch-claim_ok F C config now o account s l c, get-insert_self) (omega arith) in
      let kept = run-ClaimedSince now account cs t since noted in
      let (l', c') = (claim-ok_iff F C config later o' account (run F C config cs t)).0 second in
      ground (arith, kept, c'.allowed)
