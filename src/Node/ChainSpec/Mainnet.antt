-- ===== src/Node/ChainSpec/Mainnet.antt =====
-- node/src/chain_spec/mainnet.rs
use qxchain.Prelude.{ℕ, Option, none, some, List, [], ◌∷◌, map}
use qxchain.Genesis.{GenesisPatch}
use qxchain.Node.Outcome.{Outcome, value, unwrap, ok_or, ◌>>=◌}
use qxchain.Node.ChainSpec.{
  Crypto, ChainSpec, live, authority_keys_from_ss58, faucet_pot_account, token_properties,
}

module _ {AccountId : Type 0} (K : Crypto AccountId) where
  open K use {AuraId, GrandpaId, account_from_ss58check}

  unfoldable pub mainnet_genesis :
      List (AuraId × GrandpaId)
      → AccountId
      → List (AccountId × ℕ)
      → GenesisPatch AccountId AuraId GrandpaId
  mainnet_genesis initial_authorities root_key endowed_accounts = record {
    balances = endowed_accounts;
    aura_authorities = map (λ (x : AuraId × GrandpaId). x.0) initial_authorities;
    grandpa_authorities = map (λ (x : AuraId × GrandpaId). (x.1, 1)) initial_authorities;
    sudo_key = some root_key;
  }

  unfoldable pub mainnet_config : Option (List ℕ) → Outcome (ChainSpec K)
  unfolding mainnet_genesis
  mainnet_config wasm_binary = do
    wasm_binary ← ok_or wasm_binary "Mainnet wasm not available"
    validator_1 ←
        authority_keys_from_ss58 K "5GyAAHVMUiumNzDxQAYT4uUNPGuufv383MiKyDNkwTndHBog"
          "5GZmHXcxXBS3gX9kgh8VNkmwGLezjCeb6PiQjkb5irPqq7eU"
    validator_2 ←
        authority_keys_from_ss58 K "5H6Tf2hamehd3ioXa33zyYWxZriFFdytkUN8kNUu5qjbLYa8"
          "5Gb4cT7YWKPWN1Bm2ix3n5aLfYBEJHZnT4rxfRLht2uZt2rz"
    validator_3 ←
        authority_keys_from_ss58 K "5EsSP19v8UXzuAdncoKNuuRmiGdyjDdRBBqecgS77jA54W9Z"
          "5HLN17LsCZ9jKTSgQb9c5i5Kn7mieTZxfnRpF5mXHqnokriR"
    validator_4 ←
        authority_keys_from_ss58 K "5CFFugsxfkHK1PQgsd4r7Ge6vtXX6oEdko9nhTUmCKvKti9k"
          "5EWUwAgL7DMHwrivqUXDq3DZfZ7n22QyW4zSSxr7imakQwtS"
    root_key ← unwrap (account_from_ss58check "5GyAAHVMUiumNzDxQAYT4uUNPGuufv383MiKyDNkwTndHBog")
    validator ← unwrap (account_from_ss58check "5GyAAHVMUiumNzDxQAYT4uUNPGuufv383MiKyDNkwTndHBog")
    let initial_authorities = validator_1 ∷ validator_2 ∷ validator_3 ∷ validator_4 ∷ []
    let endowed_accounts =
        (validator, 1000000000000000) ∷ (faucet_pot_account K, 1000000000000000000) ∷ []
    value (record {
      code = wasm_binary;
      extensions = record { fork_blocks = none; bad_blocks = some [] };
      name = "QXChain Mainnet";
      protocol_id = some "qxchain";
      id = "qxchain_mainnet";
      chain_type = live;
      boot_nodes = [];
      genesis = mainnet_genesis initial_authorities root_key endowed_accounts;
      properties = token_properties;
    })
