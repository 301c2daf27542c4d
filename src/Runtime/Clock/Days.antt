-- ===== src/Runtime/Clock/Days.antt =====
-- The waits of runtime/src/lib.rs, which count blocks, in hours of the clock.
use qxchain.Prelude.{
  ℕ, ◌+◌, ◌-◌, ◌*◌, ◌≤◌, ◌<◌, ◌≡◌, none, some, true, List, [], ◌∷◌, arith, saturating_add, u32_max,
}
use native.Mathlib.Decide.{dec_le}
use qxchain.Frame.{Key, Frame, bytes_key, ok}
use qxchain.Currency.{Currency}
use qxchain.Kilt
use qxchain.Kilt.{WorkerDid, generate_did}
use qxchain.Kilt.Invariant.{IsValid}
use qxchain.Kilt.Access.{NoRoot}
use qxchain.Kilt.Credentials.{NoCollision}
use qxchain.Faucet
use qxchain.Faucet.Cooldown.{AllSince, claim-cooldown}
use qxchain.Runtime.{
  qx_kilt_permissions, qx_ai, qx_faucet, State, Calls, dispatch, run, faucet_config, days,
}
use qxchain.Runtime.Pallets.{faucet_calls, faucet-run}
use qxchain.Runtime.ShutOut.{IsShutOut, suspend_worker-IsShutOut}
use qxchain.Runtime.Clock.{Aura, Clock, aura_config, slot_duration, moments_apart}

-- 24 hours in milliseconds
abbrev pub day : ℕ
day = 24 * 60 * 60 * 1000

module _ (A : Aura) (clock : Clock (aura_config A)) where
  open clock use {moment}

  -- as `moments_apart`, by the numbers of the two blocks
  moments_between :
      (n m : ℕ) → n ≤ m → moment n + (m - n) * slot_duration < moment m + slot_duration
  moments_between n m h =
      let e : (m - n) + n ≡ m = omega (arith, h) in rw e at (moments_apart A clock n (m - n))

  cooldown_time :
      (n m : ℕ)
      → saturating_add n 14400 ≤ m
      → n + 14400 ≤ u32_max
      → moment n + day < moment m + slot_duration
  cooldown_time n m h cap = omega (arith, moments_between n m (omega (arith, h, cap)), h, cap)

  within_day : (n m : ℕ) → m ≤ u32_max → moment m ≤ moment n + day → m ≤ saturating_add n (1 * days)
  within_day n m cap h = elim (dec_le n m) [
    | yes later ↦ omega (arith, moments_between n m later, later, cap, h)
    | no earlier ↦ omega (arith, earlier, cap)
  ]

module _ {AccountId : Type 0} ⦃account_key : Key AccountId⦄ (F : Frame AccountId)
    (C : Currency AccountId) (account_id32 : List ℕ → AccountId) (A : Aura)
    (clock : Clock (aura_config A)) where
  open F use {get, ensure_root, Origin}
  open clock use {moment}

  AllSince-faucet_calls :
      (now : ℕ) (cs : Calls F C account_id32)
      → AllSince now cs
      → AllSince now (faucet_calls F C account_id32 cs)
  unfolding faucet_calls
  AllSince-faucet_calls now [] h = tt
  AllSince-faucet_calls now ((later, o, qx_kilt_permissions c) ∷ cs) h =
      AllSince-faucet_calls now cs h.1
  AllSince-faucet_calls now ((later, o, qx_ai c) ∷ cs) h = AllSince-faucet_calls now cs h.1
  AllSince-faucet_calls now ((later, o, qx_faucet c) ∷ cs) h =
      (h.0, AllSince-faucet_calls now cs h.1)

  -- After a claim for an account that succeeded, and any history of calls of the runtime at that
  -- block or later, a claim for the account that succeeds is 24 hours later by the clock of the
  -- chain, or short of that by less than a slot; while block numbers have not reached the last
  -- `u32`.
  pub claim-day :
      (now later : ℕ) (o o' : Origin) (account : AccountId) (cs : Calls F C account_id32)
      (s : State F C account_id32)
      → now + (faucet_config account_id32).claim_cooldown ≤ u32_max
      → AllSince now cs
      → let c = qx_faucet (Faucet.Call.claim account) in
        (dispatch F C account_id32 now o c s).0 ≡ ok tt
        → (dispatch F C account_id32 later o' c
            (run F C account_id32 cs (dispatch F C account_id32 now o c s).1)).0
          ≡ ok tt
        → moment now + day < moment later + slot_duration
  unfolding dispatch
  claim-day now later o o' account cs s cap since first second =
      let c = qx_faucet (Faucet.Call.claim account) in
      let t = (dispatch F C account_id32 now o c s).1 in
      cooldown_time A clock now later
        (claim-cooldown F C (faucet_config account_id32) now later o o' account
          (faucet_calls F C account_id32 cs) s.faucet (AllSince-faucet_calls now cs since) first
          (rw (faucet-run F C account_id32 cs t) at second))
        cap

  -- In a well-formed storage with no collision of DIDs, a registered worker that root suspends with
  -- no duration given cannot work at any block, of a number that is a `u32`, in the 24 hours that
  -- follow by the clock of the chain, whatever the other callers, who are not root, do in the
  -- meantime: no request to it, no answer from it and no change of its status is accepted.
  pub suspend_worker-day :
      (now later : ℕ) (o : Origin) (cs : Calls F C account_id32) (s : State F C account_id32)
      (a : AccountId) (w : WorkerDid AccountId)
      → IsValid F s.kilt
      → NoCollision F
      → ensure_root o ≡ true
      → get s.kilt.worker_dids a ≡ some w
      → NoRoot F cs
      → later ≤ u32_max
      → moment later ≤ moment now + day
      → let c = qx_kilt_permissions (Kilt.Call.suspend_worker (generate_did F a) none) in
        IsShutOut F C account_id32 later a
          (run F C account_id32 cs (dispatch F C account_id32 now o c s).1)
  suspend_worker-day now later o cs s a w v n hr hw quiet cap h =
      suspend_worker-IsShutOut F C account_id32 now later o none cs s a w v n hr hw quiet
        (within_day A clock now later cap h)
