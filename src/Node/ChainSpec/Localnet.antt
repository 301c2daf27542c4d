-- ===== src/Node/ChainSpec/Localnet.antt =====
-- node/src/chain_spec/localnet.rs
use qxchain.Prelude.{ℕ, Bool, true, Option, none, some, List, [], ◌∷◌, map, if◌then◌else◌}
use qxchain.Genesis.{GenesisPatch}
use qxchain.Node.Outcome.{Outcome, value, unwrap, ok_or, ◌>>=◌}
use qxchain.Node.ChainSpec.{
  Crypto, ChainSpec, local, get_account_id_from_seed, authority_keys_from_seed, faucet_pot_account,
  token_properties,
}

module _ {AccountId : Type 0} (K : Crypto AccountId) where
  open K use {AuraId, GrandpaId, h256_from_str}

  unfoldable pub localnet_genesis :
      List (AuraId × GrandpaId) → Bool → Outcome (GenesisPatch AccountId AuraId GrandpaId)
  localnet_genesis initial_authorities enable_println = do
    alice ← get_account_id_from_seed K "Alice"
    bob ← get_account_id_from_seed K "Bob"
    charlie ← get_account_id_from_seed K "Charlie"
    dave ← get_account_id_from_seed K "Dave"
    eve ← get_account_id_from_seed K "Eve"
    ferdie ← get_account_id_from_seed K "Ferdie"
    let balances =
        (alice, 1000000000000000)
        ∷ (bob, 1000000000000000)
        ∷ (charlie, 1000000000000000)
        ∷ (dave, 2000000000000)
        ∷ (eve, 2000000000000)
        ∷ (ferdie, 2000000000000)
        ∷ (faucet_pot_account K, 1000000000000000000)
        ∷ []
    sudo ← get_account_id_from_seed K "Alice"
    value (record {
      balances = balances;
      aura_authorities = map (λ (x : AuraId × GrandpaId). x.0) initial_authorities;
      grandpa_authorities = map (λ (x : AuraId × GrandpaId). (x.1, 1)) initial_authorities;
      sudo_key = some sudo;
    })

  -- the two lists of authorities
  localnet_authorities : Bool → Outcome (List (AuraId × GrandpaId))
  localnet_authorities single_authority =
      if single_authority
      then (do alice ← authority_keys_from_seed K "Alice"; value (alice ∷ []))
      else (do
        alice ← authority_keys_from_seed K "Alice"
        bob ← authority_keys_from_seed K "Bob"
        value (alice ∷ bob ∷ []))

  -- `wasm_binary` is the constant that the build makes of the runtime
  unfoldable pub localnet_config : Option (List ℕ) → Bool → Outcome (ChainSpec K)
  unfolding localnet_genesis localnet_authorities
  localnet_config wasm_binary single_authority = do
    wasm_binary ← ok_or wasm_binary "Development wasm not available"
    bad_block ←
        unwrap (h256_from_str "0x0000000000000000000000000000000000000000000000000000000000000000")
    initial_authorities ← localnet_authorities single_authority
    genesis ← localnet_genesis initial_authorities true
    value (record {
      code = wasm_binary;
      extensions = record { fork_blocks = none; bad_blocks = some (bad_block ∷ []) };
      name = "QXChain Local";
      protocol_id = some "qxchain";
      id = "qxchain_local";
      chain_type = local;
      boot_nodes = [];
      genesis = genesis;
      properties = token_properties;
    })
