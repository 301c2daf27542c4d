-- ===== src/Runtime/Pallets.antt =====
-- Each pallet of runtime/src/lib.rs on its own, in a history of calls of the runtime.
use qxchain.Prelude.{ℕ, ◌≤◌, ◌≡◌, refl, List, [], ◌∷◌, arith, length, u32_max}
use qxchain.Frame.{Key, Frame, bytes_key}
use qxchain.Currency.{Currency}
use qxchain.Kilt
use qxchain.Ai
use qxchain.Faucet
use qxchain.Kilt.Invariant.{IsValid, run-IsValid, genesis-IsValid}
use qxchain.Ai.Queues.{IsQueued}
use qxchain.Ai.Records.{IsRecorded}
use qxchain.Ai.History.Runs.{run-genesis}
use qxchain.Faucet.Limits.{run-Counts}
use qxchain.Runtime.{
  qx_kilt_permissions, qx_ai, qx_faucet, State, Calls, dispatch, run, genesis, kilt_config,
  ai_config, faucet_config, kilt_permissions_impl,
}

module _ {AccountId : Type 0} ⦃account_key : Key AccountId⦄ (F : Frame AccountId)
    (C : Currency AccountId) (account_id32 : List ℕ → AccountId) where
  open F use {Origin}
  open C use {Ledger}

  unfoldable pub kilt_calls : Calls F C account_id32 → List (ℕ × Origin × Kilt.Call)
  kilt_calls [] = []
  kilt_calls ((now, o, qx_kilt_permissions c) ∷ cs) = (now, o, c) ∷ kilt_calls cs
  kilt_calls ((now, o, qx_ai c) ∷ cs) = kilt_calls cs
  kilt_calls ((now, o, qx_faucet c) ∷ cs) = kilt_calls cs

  -- with the answers of the KILT pallet at the time of each call
  unfoldable pub ai_calls : Calls F C account_id32 → State F C account_id32 → List (Ai.Step F)
  ai_calls [] s = []
  ai_calls ((now, o, qx_kilt_permissions c) ∷ cs) s =
      ai_calls cs (dispatch F C account_id32 now o (qx_kilt_permissions c) s).1
  ai_calls ((now, o, qx_ai c) ∷ cs) s =
      (kilt_permissions_impl F C account_id32 now s, now, o, c)
      ∷ ai_calls cs (dispatch F C account_id32 now o (qx_ai c) s).1
  ai_calls ((now, o, qx_faucet c) ∷ cs) s =
      ai_calls cs (dispatch F C account_id32 now o (qx_faucet c) s).1

  unfoldable pub faucet_calls : Calls F C account_id32 → List (ℕ × Origin × Faucet.Call AccountId)
  faucet_calls [] = []
  faucet_calls ((now, o, qx_kilt_permissions c) ∷ cs) = faucet_calls cs
  faucet_calls ((now, o, qx_ai c) ∷ cs) = faucet_calls cs
  faucet_calls ((now, o, qx_faucet c) ∷ cs) = (now, o, c) ∷ faucet_calls cs

  pub kilt-run :
      (cs : Calls F C account_id32) (s : State F C account_id32)
      → (run F C account_id32 cs s).kilt ≡ Kilt.run F kilt_config (kilt_calls cs) s.kilt
  unfolding run dispatch kilt_calls Kilt.run
  kilt-run [] s = refl
  kilt-run ((now, o, qx_kilt_permissions c) ∷ cs) s =
      kilt-run cs (dispatch F C account_id32 now o (qx_kilt_permissions c) s).1
  kilt-run ((now, o, qx_ai c) ∷ cs) s = kilt-run cs (dispatch F C account_id32 now o (qx_ai c) s).1
  kilt-run ((now, o, qx_faucet c) ∷ cs) s =
      kilt-run cs (dispatch F C account_id32 now o (qx_faucet c) s).1

  ai-run :
      (cs : Calls F C account_id32) (s : State F C account_id32)
      → (run F C account_id32 cs s).ai ≡ Ai.run F ai_config (ai_calls cs s) s.ai
  unfolding run dispatch ai_calls Ai.run
  ai-run [] s = refl
  ai-run ((now, o, qx_kilt_permissions c) ∷ cs) s =
      ai-run cs (dispatch F C account_id32 now o (qx_kilt_permissions c) s).1
  ai-run ((now, o, qx_ai c) ∷ cs) s = ai-run cs (dispatch F C account_id32 now o (qx_ai c) s).1
  ai-run ((now, o, qx_faucet c) ∷ cs) s =
      ai-run cs (dispatch F C account_id32 now o (qx_faucet c) s).1

  pub faucet-run :
      (cs : Calls F C account_id32) (s : State F C account_id32)
      → (run F C account_id32 cs s).faucet
        ≡ Faucet.run F C (faucet_config account_id32) (faucet_calls cs) s.faucet
  unfolding run dispatch faucet_calls Faucet.run
  faucet-run [] s = refl
  faucet-run ((now, o, qx_kilt_permissions c) ∷ cs) s =
      faucet-run cs (dispatch F C account_id32 now o (qx_kilt_permissions c) s).1
  faucet-run ((now, o, qx_ai c) ∷ cs) s =
      faucet-run cs (dispatch F C account_id32 now o (qx_ai c) s).1
  faucet-run ((now, o, qx_faucet c) ∷ cs) s =
      faucet-run cs (dispatch F C account_id32 now o (qx_faucet c) s).1

  -- what holds of the storage of the three pallets
  pub record IsSound (s : State F C account_id32) : Type 0 where
    pub kilt : IsValid F s.kilt
    pub queues : IsQueued F ai_config s.ai
    pub records : IsRecorded F s.ai
    pub claims :
        (a : AccountId)
        → Faucet.claim_count_of F C (faucet_config account_id32) s.faucet a
          ≤ (faucet_config account_id32).max_claims_per_account

  length-ai_calls :
      (cs : Calls F C account_id32) (s : State F C account_id32)
      → length (ai_calls cs s) ≤ length cs
  unfolding ai_calls
  length-ai_calls [] s = omega arith
  length-ai_calls ((now, o, qx_kilt_permissions c) ∷ cs) s =
      omega
        (arith, length-ai_calls cs (dispatch F C account_id32 now o (qx_kilt_permissions c) s).1)
  length-ai_calls ((now, o, qx_ai c) ∷ cs) s =
      omega (arith, length-ai_calls cs (dispatch F C account_id32 now o (qx_ai c) s).1)
  length-ai_calls ((now, o, qx_faucet c) ∷ cs) s =
      omega (arith, length-ai_calls cs (dispatch F C account_id32 now o (qx_faucet c) s).1)

  -- On a new chain, over any ledger and after any history of at most as many calls as there are
  -- request ids, the storage of the KILT pallet is well-formed, the queues of the AI pallet hold
  -- the waiting requests and at most 100 each, its results are exactly one for each completed
  -- request, and no account has been counted more than 5 claims.
  pub run-IsSound :
      (cs : Calls F C account_id32) (ledger : Ledger)
      → length cs ≤ u32_max
      → IsSound (run F C account_id32 cs (genesis F C account_id32 ledger))
  unfolding genesis Faucet.genesis
  run-IsSound cs ledger h =
      let s = genesis F C account_id32 ledger in
      let ai = run-genesis F ai_config (ai_calls cs s) (omega (arith, length-ai_calls cs s, h)) in
      record {
        kilt =
            rw (kilt-run cs s)
              (run-IsValid F kilt_config (kilt_calls cs) (Kilt.genesis F) (genesis-IsValid F));
        queues = rw (ai-run cs s) ai.0;
        records = rw (ai-run cs s) ai.1;
        claims = λ a. rw (faucet-run cs s) (
            (run-Counts F C (faucet_config account_id32) a (faucet_calls cs) s.faucet
                (omega arith)).capped
              (ground (arith, F.get-empty {V = ℕ} a)));
      }
