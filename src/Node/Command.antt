-- ===== src/Node/Command.antt =====
-- node/src/command.rs: the specification that a name on the command line stands for.
pub mod Loaded
pub mod FirstClaim
pub mod Cli
pub mod Run
pub mod Started
use Prim.Native.String.{String}
use text.Mathlib.Text.{◌==◌}
use qxchain.Prelude.{ℕ, true, false, Option, List, if◌then◌else◌}
use qxchain.Node.Outcome.{Outcome}
use qxchain.Node.ChainSpec.{Crypto, ChainSpec}
use qxchain.Node.ChainSpec.Localnet.{localnet_config}
use qxchain.Node.ChainSpec.Mainnet.{mainnet_config}

-- `from_json_file` is `ChainSpec::from_json_file` of sc_service.
unfoldable pub load_spec :
    {AccountId : Type 0} (K : Crypto AccountId)
    → Option (List ℕ)
    → (String → Outcome (ChainSpec K))
    → String
    → Outcome (ChainSpec K)
load_spec K wasm_binary from_json_file id =
    if id == "localnet_single"
    then localnet_config K wasm_binary true
    else if id == "localnet"
    then localnet_config K wasm_binary false
    else if id == "mainnet"
    then mainnet_config K wasm_binary
    else from_json_file id
