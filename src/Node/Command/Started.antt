-- ===== src/Node/Command/Started.antt =====
-- Which tasks `run` of node/src/command.rs has the service start itself, by the command.
use Prim.Native.String.{String}
use qxchain.Prelude.{
  ◌≡◌, Bool, true, false, not, Option, none, some, List, [], ◌++◌, map, sym, ap, ◌∙◌,
}
use qxchain.Node.Outcome.{Outcome, value, ◌>>=◌, >>=-eq-value, value_inj}
use qxchain.Node.Sdk.{Sdk, NetworkBackendType, libp2p, litep2p}
use qxchain.Node.Service.{Configuration, Starters, Task, Service, new_partial, new_full}
use qxchain.Node.Service.Tasks.{when, summary, has_endpoint, new_partial-summary, new_full-summary}
use qxchain.Node.Command.Cli.{
  Commands, Cli, Subcommand, key, build_spec, check_block, export_blocks, export_state,
  import_blocks, purge_chain, revert, chain_info,
}
use qxchain.Node.Command.Run.{
  Process, tasks, finished, command, network_backend_of, run_command, run,
}

-- what a command needs: no service, the parts of one, or the whole node
pub data Needs : Type 0 where
  no_service parts whole_node : Needs

module _ (S : Sdk) (C : Commands S) where
  abbrev pub needs : Option (Subcommand S C) → Needs
  needs none = whole_node
  needs (some (key _)) = no_service
  needs (some (build_spec _)) = no_service
  needs (some (check_block _)) = parts
  needs (some (export_blocks _)) = parts
  needs (some (export_state _)) = parts
  needs (some (import_blocks _)) = parts
  needs (some (purge_chain _)) = no_service
  needs (some (revert _)) = parts
  needs (some (chain_info _)) = no_service

  module _ (starters : Starters S) (create_runner : Cli S C → Outcome (Configuration S)) where
    abbrev telemetry_task : Configuration S → List (String × Bool × Bool)
    telemetry_task config =
        when (has_endpoint S config.telemetry_endpoints) ("telemetry", false, false)

    -- the tasks, with whether the process ends with each, and whether it signs
    abbrev pub Starts : Cli S C → Needs → List (String × Bool × Bool) → Type 0
    Starts cli no_service ts = ts ≡ []
    Starts cli parts ts =
        (config : Configuration S) × (create_runner cli ≡ value config)
        × (ts ≡ telemetry_task config)
    Starts cli whole_node ts =
        (config : Configuration S) × (create_runner cli ≡ value config)
        × (ts
            ≡ telemetry_task config
              ++ (when config.offchain_worker_enabled ("offchain-workers-runner", false, false)
                  ++ (when config.is_authority ("aura", true, true)
                      ++ when (not config.disable_grandpa)
                          ("grandpa-voter", true, config.is_authority))))

    finished-Starts :
        {A : Type 0} (m : Outcome A) (p : Process S C)
        → (m >>= λ a. value finished) ≡ value p
        → map (summary S) (tasks S C p) ≡ []
    finished-Starts m p h =
        let (a, _, r) = >>=-eq-value m _ p h in
        ap (λ q. map (summary S) (tasks S C q)) (sym (value_inj _ _ r))

    parts-Starts :
        (cli : Cli S C) (future : Configuration S → Service S → C.Future) (p : Process S C)
        → (create_runner cli >>= λ config. new_partial S config >>= λ service.
            value (command (future config service) service.tasks))
          ≡ value p
        → Starts cli parts (map (summary S) (tasks S C p))
    parts-Starts cli future p h =
        let (config, e, r) = >>=-eq-value (create_runner cli) _ p h in
        let (service, made, last) = >>=-eq-value (new_partial S config) _ p r in
        (
          config,
          e,
          ap (λ q. map (summary S) (tasks S C q)) (sym (value_inj _ _ last))
              ∙ new_partial-summary S starters config service made,
        )

    node-Starts :
        (config : Configuration S) (b : NetworkBackendType) (ts : List (Task S))
        → (elim b as (λ _. Outcome (List (Task S))) [
          | libp2p ↦ new_full S starters libp2p config
          | litep2p ↦ new_full S starters litep2p config
        ])
          ≡ value ts
        → new_full S starters b config ≡ value ts
    node-Starts config libp2p ts h = h
    node-Starts config litep2p ts h = h

    run_command-Starts :
        (cli : Cli S C) (c : Option (Subcommand S C)) (p : Process S C)
        → run_command S C starters create_runner cli c ≡ value p
        → Starts cli (needs c) (map (summary S) (tasks S C p))
    unfolding run_command
    run_command-Starts cli (some (key cmd)) p h = finished-Starts (C.key_run cmd) p h
    run_command-Starts cli (some (build_spec cmd)) p h =
        let (config, _, r) = >>=-eq-value (create_runner cli) _ p h in
        finished-Starts (C.build_spec_run cmd _ _) p r
    run_command-Starts cli (some (check_block cmd)) p h =
        parts-Starts cli (λ config s. C.check_block_run cmd s.client s.import_queue) p h
    run_command-Starts cli (some (export_blocks cmd)) p h =
        parts-Starts cli (λ config s. C.export_blocks_run cmd s.client (C.database config.settings))
          p h
    run_command-Starts cli (some (export_state cmd)) p h =
        parts-Starts cli
          (λ config s. C.export_state_run cmd s.client (C.chain_spec config.settings)) p h
    run_command-Starts cli (some (import_blocks cmd)) p h =
        parts-Starts cli (λ config s. C.import_blocks_run cmd s.client s.import_queue) p h
    run_command-Starts cli (some (purge_chain cmd)) p h =
        let (config, _, r) = >>=-eq-value (create_runner cli) _ p h in
        finished-Starts (C.purge_chain_run cmd _) p r
    run_command-Starts cli (some (revert cmd)) p h =
        parts-Starts cli (λ config s. C.revert_run cmd s.client s.backend) p h
    run_command-Starts cli (some (chain_info cmd)) p h =
        let (config, _, r) = >>=-eq-value (create_runner cli) _ p h in
        finished-Starts (C.chain_info_run cmd config) p r
    run_command-Starts cli none p h =
        let (config, e, r) = >>=-eq-value (create_runner cli) _ p h in
        let (ts, made, last) = >>=-eq-value _ _ p r in
        let b = network_backend_of S C config.network_backend in
        (
          config,
          e,
          ap (λ q. map (summary S) (tasks S C q)) (sym (value_inj _ _ last))
              ∙ new_full-summary S starters config b ts (node-Starts config b ts made),
        )

    -- The tasks that the code of the node itself hands to the task manager, by the command line that
    -- does not fail; not what the parts of the SDK spawn by the handles that they are given. With no
    -- subcommand, the four of the node, each by its configuration: authoring and the voter, with
    -- which the process ends, telemetry and the off-chain workers. To check, export, import or
    -- revert blocks or to export a state, at most telemetry, which neither ends the process nor is
    -- given keys to sign with. For keys, a specification, a purge and the information on the chain,
    -- none.
    pub run-Starts :
        (cli : Cli S C) (p : Process S C)
        → run S C starters create_runner cli ≡ value p
        → Starts cli (needs cli.subcommand) (map (summary S) (tasks S C p))
    unfolding run
    run-Starts cli p h = run_command-Starts cli cli.subcommand p h
