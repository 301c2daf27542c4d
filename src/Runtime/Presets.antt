-- ===== src/Runtime/Presets.antt =====
-- The genesis presets of runtime/src/lib.rs (the module `genesis_config_presets`).
pub mod Endowment
use Prim.Native.String.{String}
use text.Mathlib.Text.{◌==◌}
use mathlib.Core.Option
use qxchain.Prelude.{
  ℕ, ◌-◌, ◌/◌, ◌^◌, ◌≢◌, Option, none, some, List, [], ◌∷◌, Elem, map, if◌then◌else◌,
}
use qxchain.Genesis.{GenesisPatch}

-- the keys of the keyrings that the presets name
pub data Name : Type 0 where
  alice bob charlie dave : Name

-- What the presets use of sp_keyring, sp_genesis_builder and serde_json.
pub record Keyrings (AccountId : Type 0) : Type 1 where
  pub AuraId : Type 0
  pub GrandpaId : Type 0
  -- `Sr25519Keyring::public`, `Ed25519Keyring::public` and `Sr25519Keyring::to_account_id`
  pub sr25519_public : Name → AuraId
  pub ed25519_public : Name → GrandpaId
  pub to_account_id : Name → AccountId
  -- the accounts of `Sr25519Keyring::iter`, which goes through all keys
  pub iter : List AccountId
  pub to_account_id-iter : (n : Name) → Elem (to_account_id n) iter
  pub dev_runtime_preset : String
  pub local_testnet_runtime_preset : String
  pub presets_differ : dev_runtime_preset ≢ local_testnet_runtime_preset
  -- `serde_json::to_string` and `into_bytes`
  pub to_bytes : GenesisPatch AccountId AuraId GrandpaId → List ℕ

-- `Balance::MAX / 1000`
abbrev pub endowment : ℕ
endowment = (2 ^ 128 - 1) / 1000

module _ {AccountId : Type 0} (K : Keyrings AccountId) where
  open K use {
    AuraId, GrandpaId, sr25519_public, ed25519_public, to_account_id, iter, dev_runtime_preset,
    local_testnet_runtime_preset, to_bytes,
  }

  abbrev pub authority : Name → AuraId × GrandpaId
  authority n = (sr25519_public n, ed25519_public n)

  -- the object of one preset, which the two share but for the authorities
  patch : List (AuraId × GrandpaId) → GenesisPatch AccountId AuraId GrandpaId
  patch initial_authorities = record {
    balances = map (λ (a : AccountId). (a, endowment)) iter;
    aura_authorities = map (λ (x : AuraId × GrandpaId). x.0) initial_authorities;
    grandpa_authorities = map (λ (x : AuraId × GrandpaId). (x.1, 1)) initial_authorities;
    sudo_key = some (to_account_id alice);
  }

  -- the `match` of `get_preset`
  unfoldable pub preset_patch : String → Option (GenesisPatch AccountId AuraId GrandpaId)
  unfolding patch
  preset_patch id =
      if id == dev_runtime_preset
      then some (patch (authority alice ∷ []))
      else if id == local_testnet_runtime_preset
      then some (patch (authority alice ∷ authority bob ∷ authority charlie ∷ authority dave ∷ []))
      else none

  unfoldable pub get_preset : String → Option (List ℕ)
  unfolding preset_patch
  get_preset id = Option.map to_bytes (preset_patch id)

  unfoldable pub preset_names : List String
  preset_names = dev_runtime_preset ∷ local_testnet_runtime_preset ∷ []
