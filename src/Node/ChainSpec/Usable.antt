-- ===== src/Node/ChainSpec/Usable.antt =====
-- What the two specifications of node/src/chain_spec give a chain to start from.
use Prim.Native.String.{String}
use qxchain.Prelude.{
  ℕ, ◌+◌, ◌≤◌, ◌<◌, ◌^◌, ◌≡◌, refl, inl, inr, Bool, true, false, some, none, List, [], ◌∷◌, Elem,
  arith, length, map, ◌++◌,
}
use qxchain.Genesis.{GenesisPatch, AllAtLeast, Distinct, accounts, issuance}
use qxchain.Runtime.{existential_deposit, max_authorities, faucet_config}
use qxchain.Node.Outcome.{value}
use qxchain.Node.ChainSpec.{
  Crypto, ChainSpec, local, live, get_account_id_from_seed, authority_keys_from_seed,
  authority_keys_from_ss58, faucet_pot_account, token_properties,
}
use qxchain.Node.ChainSpec.Localnet.{localnet_config}
use qxchain.Node.ChainSpec.Mainnet.{mainnet_config}

-- the secret URIs of the local network, without the slashes
abbrev pub seeds : List String
seeds = "Alice" ∷ "Bob" ∷ "Charlie" ∷ "Dave" ∷ "Eve" ∷ "Ferdie" ∷ []

abbrev authority_seeds : Bool → List String
authority_seeds true = "Alice" ∷ []
authority_seeds false = "Alice" ∷ "Bob" ∷ []

-- the SS58 addresses of the mainnet's authorities, of Aura and of Grandpa
abbrev pub authority_addresses : List (String × String)
authority_addresses =
    (
      "5GyAAHVMUiumNzDxQAYT4uUNPGuufv383MiKyDNkwTndHBog",
      "5GZmHXcxXBS3gX9kgh8VNkmwGLezjCeb6PiQjkb5irPqq7eU",
    )
    ∷ (
      "5H6Tf2hamehd3ioXa33zyYWxZriFFdytkUN8kNUu5qjbLYa8",
      "5Gb4cT7YWKPWN1Bm2ix3n5aLfYBEJHZnT4rxfRLht2uZt2rz",
    )
    ∷ (
      "5EsSP19v8UXzuAdncoKNuuRmiGdyjDdRBBqecgS77jA54W9Z",
      "5HLN17LsCZ9jKTSgQb9c5i5Kn7mieTZxfnRpF5mXHqnokriR",
    )
    ∷ (
      "5CFFugsxfkHK1PQgsd4r7Ge6vtXX6oEdko9nhTUmCKvKti9k",
      "5EWUwAgL7DMHwrivqUXDq3DZfZ7n22QyW4zSSxr7imakQwtS",
    )
    ∷ []

module _ {AccountId : Type 0} (K : Crypto AccountId) where
  open K use {AuraId, GrandpaId, account_id32, h256_from_str, account_from_ss58check, H256}

  -- the pot that the runtime pays from
  abbrev pub pot : AccountId
  pot = (faucet_config account_id32).faucet_pot

  -- The pot that the runtime pays from has a million tokens of 10^12 units; the sudo key is that of
  -- an account with balance; every balance is enough for an account to exist, and all of them and
  -- one drip fit a `u128`; and each authority has both of its keys, one vote, and one of the 32
  -- places that the runtime has.
  pub record IsFunded (genesis : GenesisPatch AccountId AuraId GrandpaId) : Type 0 where
    pub pot_funded : Elem (pot, 1000000000000000000) genesis.balances
    pub sudo_funded :
        (key : AccountId) × (v : ℕ) × (genesis.sudo_key ≡ some key) × Elem (key, v) genesis.balances
    pub endowed : AllAtLeast existential_deposit genesis.balances
    pub fits : issuance genesis.balances + 10000000000000 < 2 ^ 128
    pub some_authority : 0 < length genesis.aura_authorities
    pub few_authorities : length genesis.aura_authorities ≤ max_authorities
    pub votes :
        map (λ (x : GrandpaId × ℕ). x.1) genesis.grandpa_authorities
        ≡ map (λ (x : AuraId). 1) genesis.aura_authorities

  -- The same, and no account has two balances, with which the genesis could not be built.
  pub record IsUsable (genesis : GenesisPatch AccountId AuraId GrandpaId) : Type 0 where
    pub funded : IsFunded genesis
    pub distinct : Distinct (accounts genesis.balances)

  abbrev pub patch :
      List (AuraId × GrandpaId)
      → AccountId
      → List (AccountId × ℕ)
      → GenesisPatch AccountId AuraId GrandpaId
  patch authorities sudo balances = record {
    balances = balances;
    aura_authorities = map (λ (x : AuraId × GrandpaId). x.0) authorities;
    grandpa_authorities = map (λ (x : AuraId × GrandpaId). (x.1, 1)) authorities;
    sudo_key = some sudo;
  }

  abbrev localnet_spec :
      Bool → List ℕ → H256 → (String → AccountId) → (String → AuraId × GrandpaId) → ChainSpec K
  localnet_spec single_authority code bad_block account authority = record {
    code = code;
    extensions = record { fork_blocks = none; bad_blocks = some (bad_block ∷ []) };
    name = "QXChain Local";
    protocol_id = some "qxchain";
    id = "qxchain_local";
    chain_type = local;
    boot_nodes = [];
    genesis = patch (map authority (authority_seeds single_authority)) (account "Alice") (
        (account "Alice", 1000000000000000)
        ∷ (account "Bob", 1000000000000000)
        ∷ (account "Charlie", 1000000000000000)
        ∷ (account "Dave", 2000000000000)
        ∷ (account "Eve", 2000000000000)
        ∷ (account "Ferdie", 2000000000000)
        ∷ ((faucet_config account_id32).faucet_pot, 1000000000000000000)
        ∷ []);
    properties = token_properties;
  }

  localnet_spec-IsFunded :
      (single_authority : Bool) (code : List ℕ) (bad_block : H256) (account : String → AccountId)
      (authority : String → AuraId × GrandpaId)
      → IsFunded (localnet_spec single_authority code bad_block account authority).genesis
  localnet_spec-IsFunded true code bad_block account authority = record {
    pot_funded = inr (inr (inr (inr (inr (inr (inl refl))))));
    sudo_funded = (account "Alice", 1000000000000000, refl, inl refl);
    endowed = omega arith;
    fits = omega arith;
    some_authority = omega arith;
    few_authorities = omega arith;
    votes = refl;
  }
  localnet_spec-IsFunded false code bad_block account authority = record {
    pot_funded = inr (inr (inr (inr (inr (inr (inl refl))))));
    sudo_funded = (account "Alice", 1000000000000000, refl, inl refl);
    endowed = omega arith;
    fits = omega arith;
    some_authority = omega arith;
    few_authorities = omega arith;
    votes = refl;
  }

  -- Where the runtime was built and the keys of the six seeds can be derived, the local
  -- specification is made, with one authority or with two; its balances are of the seeds and the pot.
  pub localnet_config-IsFunded :
      (single_authority : Bool) (code : List ℕ) (bad_block : H256) (account : String → AccountId)
      (authority : String → AuraId × GrandpaId)
      → h256_from_str "0x0000000000000000000000000000000000000000000000000000000000000000"
        ≡ some bad_block
      → ((s : String) → Elem s seeds → get_account_id_from_seed K s ≡ value (account s))
      → ((s : String) → Elem s seeds → authority_keys_from_seed K s ≡ value (authority s))
      → (spec : ChainSpec K) × (localnet_config K (some code) single_authority ≡ value spec)
        × IsFunded spec.genesis
        × (accounts spec.genesis.balances ≡ map account seeds ++ pot ∷ [])
  unfolding localnet_config faucet_pot_account
  localnet_config-IsFunded single_authority code bad_block account authority h derived keys = (
    localnet_spec single_authority code bad_block account authority,
    ground (
      arith,
      h,
      derived "Alice" (inl refl),
      derived "Bob" (inr (inl refl)),
      derived "Charlie" (inr (inr (inl refl))),
      derived "Dave" (inr (inr (inr (inl refl)))),
      derived "Eve" (inr (inr (inr (inr (inl refl))))),
      derived "Ferdie" (inr (inr (inr (inr (inr (inl refl)))))),
      keys "Alice" (inl refl),
      keys "Bob" (inr (inl refl)),
    ),
    localnet_spec-IsFunded single_authority code bad_block account authority,
    refl,
  )

  abbrev pub mainnet_spec :
      List ℕ → AccountId → (String × String → AuraId × GrandpaId) → ChainSpec K
  mainnet_spec code validator authority = record {
    code = code;
    extensions = record { fork_blocks = none; bad_blocks = some [] };
    name = "QXChain Mainnet";
    protocol_id = some "qxchain";
    id = "qxchain_mainnet";
    chain_type = live;
    boot_nodes = [];
    genesis = patch (map authority authority_addresses) validator (
        (validator, 1000000000000000)
        ∷ ((faucet_config account_id32).faucet_pot, 1000000000000000000)
        ∷ []);
    properties = token_properties;
  }

  -- Where the runtime was built and the addresses in it are good, the specification of the mainnet
  -- is made; its balances are of the validator and the pot.
  pub mainnet_config-IsFunded :
      (code : List ℕ) (validator : AccountId) (authority : String × String → AuraId × GrandpaId)
      → account_from_ss58check "5GyAAHVMUiumNzDxQAYT4uUNPGuufv383MiKyDNkwTndHBog" ≡ some validator
      → ((a b : String)
          → Elem (a, b) authority_addresses
          → authority_keys_from_ss58 K a b ≡ value (authority (a, b)))
      → (spec : ChainSpec K) × (mainnet_config K (some code) ≡ value spec)
        × IsFunded spec.genesis
        × (accounts spec.genesis.balances ≡ validator ∷ pot ∷ [])
  unfolding mainnet_config faucet_pot_account
  mainnet_config-IsFunded code validator authority h keys = (
    mainnet_spec code validator authority,
    ground (
      arith,
      h,
      keys "5GyAAHVMUiumNzDxQAYT4uUNPGuufv383MiKyDNkwTndHBog"
          "5GZmHXcxXBS3gX9kgh8VNkmwGLezjCeb6PiQjkb5irPqq7eU" (inl refl),
      keys "5H6Tf2hamehd3ioXa33zyYWxZriFFdytkUN8kNUu5qjbLYa8"
          "5Gb4cT7YWKPWN1Bm2ix3n5aLfYBEJHZnT4rxfRLht2uZt2rz" (inr (inl refl)),
      keys "5EsSP19v8UXzuAdncoKNuuRmiGdyjDdRBBqecgS77jA54W9Z"
          "5HLN17LsCZ9jKTSgQb9c5i5Kn7mieTZxfnRpF5mXHqnokriR" (inr (inr (inl refl))),
      keys "5CFFugsxfkHK1PQgsd4r7Ge6vtXX6oEdko9nhTUmCKvKti9k"
          "5EWUwAgL7DMHwrivqUXDq3DZfZ7n22QyW4zSSxr7imakQwtS" (inr (inr (inr (inl refl)))),
    ),
    record {
      pot_funded = inr (inl refl);
      sudo_funded = (validator, 1000000000000000, refl, inl refl);
      endowed = omega arith;
      fits = omega arith;
      some_authority = omega arith;
      few_authorities = omega arith;
      votes = refl;
    },
    refl,
  )
