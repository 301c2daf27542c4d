-- ===== src/Node/Command/Loaded.antt =====
-- What `load_spec` of node/src/command.rs gives, by the name and by what the build and the keys
-- allow.
use Prim.Native.String.{String}
use text.Mathlib.TextEquality.{eq_iff}
use text.Mathlib.Text.{◌==◌}
use qxchain.Prelude.{
  ℕ, ◌≡◌, inl, inr, true, false, Option, none, some, List, [], ◌∷◌, Elem, arith, ◌⊎◌, Bool-cases,
  ◌++◌, map, ◌≢◌,
}
use qxchain.Genesis.{Distinct, Distinct-snoc, accounts}
use qxchain.Node.Outcome.{Outcome, value, error}
use qxchain.Node.ChainSpec.{
  Crypto, ChainSpec, get_account_id_from_seed, authority_keys_from_seed, authority_keys_from_ss58,
}
use qxchain.Node.ChainSpec.Localnet.{localnet_config}
use qxchain.Node.ChainSpec.Mainnet.{mainnet_config}
use qxchain.Node.ChainSpec.Usable.{
  IsFunded, seeds, pot, authority_addresses, localnet_config-IsFunded, mainnet_config-IsFunded,
}
use qxchain.Node.Command.{load_spec}

abbrev pub built_in : List String
built_in = "localnet_single" ∷ "localnet" ∷ "mainnet" ∷ []

is_built_in : (id : String) → Dec (Elem id built_in)
is_built_in id = elim (Bool-cases (id == "localnet_single")) [
  | inl e ↦ yes (inl ((eq_iff id "localnet_single").0 e))
  | inr e ↦ elim (Bool-cases (id == "localnet")) [
    | inl f ↦ yes (inr (inl ((eq_iff id "localnet").0 f)))
    | inr f ↦ elim (Bool-cases (id == "mainnet")) [
      | inl g ↦ yes (inr (inr (inl ((eq_iff id "mainnet").0 g))))
      | inr g ↦ no (λ h. ground (
        arith,
        h,
        e,
        f,
        g,
        eq_iff id "localnet_single",
        eq_iff id "localnet",
        eq_iff id "mainnet",
      ))
    ]
  ]
]

module _ {AccountId : Type 0} (K : Crypto AccountId)
    (from_json_file : String → Outcome (ChainSpec K)) where
  open K use {AuraId, GrandpaId, h256_from_str, account_from_ss58check, H256}

  -- the keys that the built-in specifications name are good
  pub record HasKeys : Type 0 where
    pub bad_block : H256
    pub validator : AccountId
    pub account : String → AccountId
    pub seed_authority : String → AuraId × GrandpaId
    pub authority : String × String → AuraId × GrandpaId
    pub hash :
        h256_from_str "0x0000000000000000000000000000000000000000000000000000000000000000"
        ≡ some bad_block
    pub sudo :
        account_from_ss58check "5GyAAHVMUiumNzDxQAYT4uUNPGuufv383MiKyDNkwTndHBog" ≡ some validator
    pub seed_accounts :
        (s : String) → Elem s seeds → get_account_id_from_seed K s ≡ value (account s)
    pub seed_keys :
        (s : String) → Elem s seeds → authority_keys_from_seed K s ≡ value (seed_authority s)
    pub keys :
        (a b : String)
        → Elem (a, b) authority_addresses
        → authority_keys_from_ss58 K a b ≡ value (authority (a, b))

  -- no two of them are keys of one account, and none is of the pot of the faucet
  pub record DistinctKeys (k : HasKeys) : Type 0 where
    pub seeds_differ : Distinct (map k.account seeds)
    pub no_seed_pot : ¬ Elem (pot K) (map k.account seeds)
    pub no_validator_pot : k.validator ≢ pot K

  localnet_accounts : (k : HasKeys) → DistinctKeys k → Distinct (map k.account seeds ++ pot K ∷ [])
  localnet_accounts k d = Distinct-snoc (map k.account seeds) (pot K) d.seeds_differ d.no_seed_pot

  mainnet_accounts : (k : HasKeys) → DistinctKeys k → Distinct (k.validator ∷ pot K ∷ [])
  mainnet_accounts k d =
      Distinct-snoc (k.validator ∷ []) (pot K) (absurd, tt)
        (λ h. ground (arith, h, d.no_validator_pot))

  pub load_spec-IsFunded :
      (id : String) (code : List ℕ) (k : HasKeys)
      → Elem id built_in
      → (spec : ChainSpec K) × (load_spec K (some code) from_json_file id ≡ value spec)
        × IsFunded K spec.genesis
        × (DistinctKeys k → Distinct (accounts spec.genesis.balances))
  unfolding load_spec
  load_spec-IsFunded id code k (inl e) =
      let (spec, made, f, a) =
        localnet_config-IsFunded K true code k.bad_block k.account k.seed_authority k.hash
          k.seed_accounts k.seed_keys in
      (spec, rw e made, f, λ d. rw a (localnet_accounts k d))
  load_spec-IsFunded id code k (inr (inl e)) =
      let (spec, made, f, a) =
        localnet_config-IsFunded K false code k.bad_block k.account k.seed_authority k.hash
          k.seed_accounts k.seed_keys in
      (spec, rw e made, f, λ d. rw a (localnet_accounts k d))
  load_spec-IsFunded id code k (inr (inr (inl e))) =
      let (spec, made, f, a) =
        mainnet_config-IsFunded K code k.validator k.authority k.sudo k.keys in
      (spec, rw e made, f, λ d. rw a (mainnet_accounts k d))
  load_spec-IsFunded id code k (inr (inr (inr x))) = absurd x

  -- Where the runtime was not built, each built-in name is refused with a message and without a
  -- panic, whatever the keys are; any other name is a file to read, with or without the runtime.
  load_spec-no_wasm :
      (id : String) (wasm_binary : Option (List ℕ))
      → (Elem id built_in × (e : String) × (load_spec K none from_json_file id ≡ error e))
        ⊎ ((¬ Elem id built_in) × (load_spec K wasm_binary from_json_file id ≡ from_json_file id))
  unfolding load_spec localnet_config mainnet_config
  load_spec-no_wasm id wasm_binary = elim (is_built_in id) [
    | yes (inl e) ↦ inl (inl e, "Development wasm not available", rw e)
    | yes (inr (inl e)) ↦ inl (inr (inl e), "Development wasm not available", rw e)
    | yes (inr (inr (inl e))) ↦ inl (inr (inr (inl e)), "Mainnet wasm not available", rw e)
    | yes (inr (inr (inr x))) ↦ absurd x
    | no h ↦ inr (
      h,
      ground (arith, h, eq_iff id "localnet_single", eq_iff id "localnet", eq_iff id "mainnet"),
    )
  ]
