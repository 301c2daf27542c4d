-- ===== src/Node/ChainSpec.antt =====
-- node/src/chain_spec/mod.rs: what a chain specification holds, and the keys that go into it.
pub mod Localnet
pub mod Mainnet
pub mod Usable
use Prim.Native.String.{String, ◌++◌}
use qxchain.Prelude.{ℕ, Option, List, [], ◌∷◌, replicate}
use qxchain.Genesis.{GenesisPatch}
use qxchain.Node.Outcome.{Outcome, value, unwrap, ◌>>=◌}

-- What the specifications use of sp_core and sp_runtime: keys from a secret URI and from an SS58
-- address, and accounts.
pub record Crypto (AccountId : Type 0) : Type 1 where
  pub AuraId : Type 0
  pub GrandpaId : Type 0
  -- the public key of a pair of sr25519
  pub Public : Type 0
  pub H256 : Type 0
  -- `Pair::from_string` without a password, and its public key
  pub sr25519_from_string : String → Option Public
  pub aura_from_string : String → Option AuraId
  pub grandpa_from_string : String → Option GrandpaId
  -- `AccountPublic::from` and `into_account`
  pub into_account : Public → AccountId
  -- `Ss58Codec::from_ss58check`
  pub account_from_ss58check : String → Option AccountId
  pub aura_from_ss58check : String → Option AuraId
  pub grandpa_from_ss58check : String → Option GrandpaId
  -- `AccountId32::new` and `H256::from_str`
  pub account_id32 : List ℕ → AccountId
  pub h256_from_str : String → Option H256

pub data ChainType : Type 0 where
  local live : ChainType

pub data Property : Type 0 where
  text : String → Property
  number : ℕ → Property

module _ {AccountId : Type 0} (K : Crypto AccountId) where
  open K use {
    AuraId, GrandpaId, Public, H256, sr25519_from_string, aura_from_string, grandpa_from_string,
    into_account, aura_from_ss58check, grandpa_from_ss58check, account_id32,
  }

  pub record Extensions : Type 0 where
    pub fork_blocks : Option (List (ℕ × H256))
    pub bad_blocks : Option (List H256)

  -- what the builder of sc_service is given
  pub record ChainSpec : Type 0 where
    pub code : List ℕ
    pub extensions : Extensions
    pub name : String
    pub protocol_id : Option String
    pub id : String
    pub chain_type : ChainType
    pub boot_nodes : List String
    pub genesis : GenesisPatch AccountId AuraId GrandpaId
    pub properties : List (String × Property)

  -- over `from_string` of the kind of key
  unfoldable pub get_from_seed : {P : Type 0} → (String → Option P) → String → Outcome P
  get_from_seed from_string seed = unwrap (from_string ("//" ++ seed))

  unfoldable pub get_account_id_from_seed : String → Outcome AccountId
  unfolding get_from_seed
  get_account_id_from_seed seed = do
    public ← get_from_seed sr25519_from_string seed
    value (into_account public)

  unfoldable pub authority_keys_from_seed : String → Outcome (AuraId × GrandpaId)
  unfolding get_from_seed
  authority_keys_from_seed s = do
    aura ← get_from_seed aura_from_string s
    grandpa ← get_from_seed grandpa_from_string s
    value (aura, grandpa)

  unfoldable pub get_aura_from_ss58_addr : String → Outcome AuraId
  get_aura_from_ss58_addr s = unwrap (aura_from_ss58check s)

  unfoldable pub get_grandpa_from_ss58_addr : String → Outcome GrandpaId
  get_grandpa_from_ss58_addr s = unwrap (grandpa_from_ss58check s)

  unfoldable pub authority_keys_from_ss58 : String → String → Outcome (AuraId × GrandpaId)
  unfolding get_aura_from_ss58_addr get_grandpa_from_ss58_addr
  authority_keys_from_ss58 s_aura s_grandpa = do
    aura ← get_aura_from_ss58_addr s_aura
    grandpa ← get_grandpa_from_ss58_addr s_grandpa
    value (aura, grandpa)

  unfoldable pub faucet_pot_account : AccountId
  faucet_pot_account =
      account_id32 (0x71 ∷ 0x78 ∷ 0x2f ∷ 0x66 ∷ 0x61 ∷ 0x75 ∷ 0x63 ∷ 0x65 ∷ 0x74 ∷ replicate 23 0)

-- The tokens' properties, which both specifications give to front ends.
abbrev pub token_properties : List (String × Property)
token_properties =
    ("tokenSymbol", text "QX") ∷ ("tokenDecimals", number 12) ∷ ("ss58Format", number 42) ∷ []
