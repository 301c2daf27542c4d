-- ===== src/Node/Command/FirstClaim.antt =====
-- A new chain that starts from a specification of node/src/command.rs, and the faucet of
-- runtime/src/lib.rs on it.
use Prim.Native.String.{String}
use qxchain.Prelude.{ℕ, ◌≡◌, ◌≢◌, some, List, Elem, arith}
use qxchain.Frame.{Frame, Key, ok}
use qxchain.Currency.{Currency}
use qxchain.Genesis.{GenesisBuild, Distinct, accounts}
use qxchain.Faucet
use qxchain.Runtime.{qx_faucet, existential_deposit, faucet_config, dispatch, genesis}
use qxchain.Runtime.FirstClaim.{first_claim}
use qxchain.Node.Outcome.{Outcome, value, value_inj}
use qxchain.Node.ChainSpec.{Crypto, ChainSpec}
use qxchain.Node.ChainSpec.Usable.{IsFunded}
use qxchain.Node.Command.{load_spec}
use qxchain.Node.Command.Loaded.{built_in, HasKeys, load_spec-IsFunded}

module _ {AccountId : Type 0} ⦃account_key : Key AccountId⦄ (K : Crypto AccountId)
    (from_json_file : String → Outcome (ChainSpec K)) (F : Frame AccountId) (C : Currency AccountId)
    (B : GenesisBuild C) where
  open K use {account_id32}

  -- Where the runtime was built and the keys are good, a built-in specification whose accounts are
  -- distinct starts a chain that pays: over a currency with the runtime's existential deposit its
  -- balances can be built, and on the new chain any account but the pot can claim, at any block.
  pub load_spec-first_claim :
      (id : String) (code : List ℕ) (spec : ChainSpec K) (now : ℕ) (account : AccountId)
      → HasKeys K from_json_file
      → Elem id built_in
      → load_spec K (some code) from_json_file id ≡ value spec
      → Distinct (accounts spec.genesis.balances)
      → C.existential_deposit ≡ existential_deposit
      → (faucet_config account_id32).faucet_pot ≢ account
      → (l : C.Ledger) × (B.build spec.genesis.balances ≡ some l)
        × ((dispatch F C account_id32 now F.unsigned
              (qx_faucet (Faucet.Call.claim account))
              (genesis F C account_id32 l)).0
            ≡ ok tt)
  load_spec-first_claim id code spec now account k named loaded distinct ed other =
      let (made, e, u, _) = load_spec-IsFunded K from_json_file id code k named in
      let same : made ≡ spec = value_inj _ _ (cc) in
      let u : IsFunded K spec.genesis = rw same at u in
      first_claim F C account_id32 B spec.genesis.balances 1000000000000000000 now account ed
        distinct u.endowed u.fits u.pot_funded (omega arith) other
