-- ===== src/Tests/FirstClaim.antt =====
-- The first claim on a chain that starts from the specification of the mainnet, in
-- node/src/chain_spec/mainnet.rs, where every address is good and stands for account 1.
use Prim.Native.String
use Prim.Native.String.{String}
use qxchain.Prelude.{ℕ, ◌≡◌, refl, inl, inr, some, [], ◌∷◌, arith}
use qxchain.Frame.{nat_key, bytes_key, ok}
use qxchain.Faucet
use qxchain.Runtime.{qx_faucet, dispatch, genesis}
use qxchain.Node.Outcome.{Outcome, value, error}
use qxchain.Node.ChainSpec.{
  Crypto, ChainSpec, get_account_id_from_seed, authority_keys_from_seed, authority_keys_from_ss58,
  faucet_pot_account,
}
use qxchain.Node.ChainSpec.Mainnet.{mainnet_config}
use qxchain.Node.ChainSpec.Usable.{mainnet_spec}
use qxchain.Node.Command.{load_spec}
use qxchain.Node.Command.Loaded.{HasKeys}
use qxchain.Node.Command.FirstClaim.{load_spec-first_claim}
use qxchain.Tests.World.{frame, balances, unsigned}
use qxchain.Tests.Genesis.{pot, build_of}

abbrev crypto : Crypto ℕ
crypto = record {
  AuraId = String;
  GrandpaId = String;
  Public = String;
  H256 = String;
  sr25519_from_string = λ s. some s;
  aura_from_string = λ s. some s;
  grandpa_from_string = λ s. some s;
  into_account = λ s. 1;
  account_from_ss58check = λ s. some 1;
  aura_from_ss58check = λ s. some s;
  grandpa_from_ss58check = λ s. some s;
  account_id32 = pot;
  h256_from_str = λ s. some s;
}

abbrev no_file : String → Outcome (ChainSpec crypto)
no_file path = error "Error opening spec file"

abbrev with_slashes : String → String
with_slashes s = Prim.Native.String.◌++◌ "//" s

keys : HasKeys crypto no_file
unfolding get_account_id_from_seed authority_keys_from_seed authority_keys_from_ss58
keys = record {
  bad_block = "0x0000000000000000000000000000000000000000000000000000000000000000";
  validator = 1;
  account = λ s. 1;
  seed_authority = λ s. (with_slashes s, with_slashes s);
  authority = λ x. x;
  hash = refl;
  sudo = refl;
  seed_accounts = λ s h. refl;
  seed_keys = λ s h. refl;
  keys = λ a b h. refl;
}

abbrev mainnet : ChainSpec crypto
mainnet = mainnet_spec crypto (1 ∷ []) 1 (λ x. x)

mainnet_loaded : load_spec crypto (some (1 ∷ [])) no_file "mainnet" ≡ value mainnet
unfolding load_spec mainnet_config authority_keys_from_ss58 faucet_pot_account
mainnet_loaded = refl

load_spec-first_claim_example :
    (l : balances.Ledger) × (build_of.build mainnet.genesis.balances ≡ some l)
    × ((dispatch frame balances pot 3 unsigned
          (qx_faucet (Faucet.Call.claim 7))
          (genesis frame balances pot l)).0
        ≡ ok tt)
load_spec-first_claim_example =
    load_spec-first_claim crypto no_file frame balances build_of "mainnet" (1 ∷ []) mainnet 3 7 keys
      (inr (inr (inl refl))) mainnet_loaded (ground arith) refl (omega arith)
