-- ===== src/Node/Command/Cli.antt =====
-- node/src/cli.rs, and what the command line uses of sc_cli.
use qxchain.Prelude.{⊤, Option}
use qxchain.Node.Outcome.{Outcome}
use qxchain.Node.Sdk.{Sdk}
use qxchain.Node.Service.{Configuration}

-- The commands of sc_cli, with what each does when it is run. The result of `run` is for some an
-- end and for others a future.
pub record Commands (S : Sdk) : Type 1 where
  pub KeySubcommand : Type 0
  pub BuildSpecCmd : Type 0
  pub CheckBlockCmd : Type 0
  pub ExportBlocksCmd : Type 0
  pub ExportStateCmd : Type 0
  pub ImportBlocksCmd : Type 0
  pub PurgeChainCmd : Type 0
  pub RevertCmd : Type 0
  pub ChainInfoCmd : Type 0
  pub RunCmd : Type 0
  pub Future : Type 0
  -- parts of a `Configuration`: `chain_spec`, `network` and `database`
  pub Spec : Type 0
  pub NetworkConfiguration : Type 0
  pub Database : Type 0
  pub chain_spec : S.Settings → Spec
  pub network : S.Settings → NetworkConfiguration
  pub database : S.Settings → Database
  pub key_run : KeySubcommand → Outcome ⊤
  pub build_spec_run : BuildSpecCmd → Spec → NetworkConfiguration → Outcome ⊤
  pub check_block_run : CheckBlockCmd → S.Client → S.ImportQueue → Future
  pub export_blocks_run : ExportBlocksCmd → S.Client → Database → Future
  pub export_state_run : ExportStateCmd → S.Client → Spec → Future
  pub import_blocks_run : ImportBlocksCmd → S.Client → S.ImportQueue → Future
  pub purge_chain_run : PurgeChainCmd → Database → Outcome ⊤
  -- with no further revert, which is `None`
  pub revert_run : RevertCmd → S.Client → S.Backend → Future
  pub chain_info_run : ChainInfoCmd → Configuration S → Outcome ⊤

module _ (S : Sdk) (C : Commands S) where
  open C use {
    KeySubcommand, BuildSpecCmd, CheckBlockCmd, ExportBlocksCmd, ExportStateCmd, ImportBlocksCmd,
    PurgeChainCmd, RevertCmd, ChainInfoCmd, RunCmd,
  }

  pub data Subcommand : Type 0 where
    key : KeySubcommand → Subcommand
    build_spec : BuildSpecCmd → Subcommand
    check_block : CheckBlockCmd → Subcommand
    export_blocks : ExportBlocksCmd → Subcommand
    export_state : ExportStateCmd → Subcommand
    import_blocks : ImportBlocksCmd → Subcommand
    purge_chain : PurgeChainCmd → Subcommand
    revert : RevertCmd → Subcommand
    chain_info : ChainInfoCmd → Subcommand

  pub record Cli : Type 0 where
    pub subcommand : Option Subcommand
    pub run : RunCmd
