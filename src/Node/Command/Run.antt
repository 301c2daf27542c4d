-- ===== src/Node/Command/Run.antt =====
-- node/src/command.rs: `run`.
use qxchain.Prelude.{Option, none, some, List, []}
use qxchain.Node.Outcome.{Outcome, value, ◌>>=◌}
use qxchain.Node.Sdk.{Sdk, NetworkBackendType, libp2p, litep2p}
use qxchain.Node.Service.{Configuration, Starters, Task, new_partial, new_full}
use qxchain.Node.Command.Cli.{
  Commands, Cli, Subcommand, key, build_spec, check_block, export_blocks, export_state,
  import_blocks, purge_chain, revert, chain_info,
}

module _ (S : Sdk) (C : Commands S) where
  open C use {
    Future, chain_spec, network, database, key_run, build_spec_run, check_block_run,
    export_blocks_run, export_state_run, import_blocks_run, purge_chain_run, revert_run,
    chain_info_run,
  }

  -- what `run` leaves to the runner: nothing after a `sync_run`; the future of a command with the
  -- tasks that the service itself has spawned beside it, for `async_run`; or the tasks of the node, for `run_node_until_exit`
  pub data Process : Type 0 where
    finished : Process
    command : Future → List (Task S) → Process
    node : List (Task S) → Process

  abbrev pub tasks : Process → List (Task S)
  tasks finished = []
  tasks (command _ ts) = ts
  tasks (node ts) = ts

  -- `network_backend.unwrap_or_default()`
  abbrev pub network_backend_of : Option NetworkBackendType → NetworkBackendType
  network_backend_of none = S.default_network_backend
  network_backend_of (some b) = b

  -- `create_runner` on the command that is named, or on `cli.run`: the configuration of the runner
  module _ (starters : Starters S) (create_runner : Cli S C → Outcome (Configuration S)) where
    -- the branches of the `match`
    unfoldable pub run_command : Cli S C → Option (Subcommand S C) → Outcome Process
    run_command cli (some (key cmd)) = do _ ← key_run cmd; value finished
    run_command cli (some (build_spec cmd)) = do
      config ← create_runner cli
      _ ← build_spec_run cmd (chain_spec config.settings) (network config.settings)
      value finished
    run_command cli (some (check_block cmd)) = do
      config ← create_runner cli
      service ← new_partial S config
      value (command (check_block_run cmd service.client service.import_queue) service.tasks)
    run_command cli (some (export_blocks cmd)) = do
      config ← create_runner cli
      service ← new_partial S config
      value
          (command (export_blocks_run cmd service.client (database config.settings)) service.tasks)
    run_command cli (some (export_state cmd)) = do
      config ← create_runner cli
      service ← new_partial S config
      value
          (command (export_state_run cmd service.client (chain_spec config.settings)) service.tasks)
    run_command cli (some (import_blocks cmd)) = do
      config ← create_runner cli
      service ← new_partial S config
      value (command (import_blocks_run cmd service.client service.import_queue) service.tasks)
    run_command cli (some (purge_chain cmd)) = do
      config ← create_runner cli
      _ ← purge_chain_run cmd (database config.settings)
      value finished
    run_command cli (some (revert cmd)) = do
      config ← create_runner cli
      service ← new_partial S config
      value (command (revert_run cmd service.client service.backend) service.tasks)
    run_command cli (some (chain_info cmd)) = do
      config ← create_runner cli
      _ ← chain_info_run cmd config
      value finished
    run_command cli none = do
      config ← create_runner cli
      ts ← elim (network_backend_of config.network_backend) [
        | libp2p ↦ new_full S starters libp2p config
        | litep2p ↦ new_full S starters litep2p config
      ]
      value (node ts)

    unfoldable pub run : Cli S C → Outcome Process
    unfolding run_command
    run cli = run_command cli cli.subcommand
