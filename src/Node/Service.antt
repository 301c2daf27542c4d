-- ===== src/Node/Service.antt =====
-- node/src/service.rs: how a node is put together, with the tasks that it starts
-- itself; the parts of the SDK spawn theirs by the handles that they are given.
pub mod Types
pub mod Tasks
pub mod Healthy
pub use Types.{
  Configuration, StartAuraParams, GrandpaParams, Job, Task, Starters, Service, run_telemetry,
  run_offchain_workers, run_aura, run_voter,
}
use Prim.Native.String.{String}
use qxchain.Prelude.{
  ℕ, ⊤, Bool, true, false, not, Option, none, some, List, [], ◌∷◌, ◌++◌, if◌then◌else◌,
}
use mathlib.Core.Option
use qxchain.Node.Sdk.{Sdk, NetworkBackendType, spawn_handle, spawn_essential_handle}
use qxchain.Node.Rpc.{FullDeps, create_full}
use qxchain.Node.Outcome.{Outcome, value, unwrap, ◌>>=◌}

-- `GRANDPA_JUSTIFICATION_PERIOD`
abbrev pub grandpa_justification_period : ℕ
grandpa_justification_period = 512

module _ (S : Sdk) where
  open S use {
    Endpoint, TelemetryWorker, Telemetry, ProtocolName, Notifications, Network, Sync,
    telemetry_worker, new_telemetry, new_full_parts, longest_chain, transaction_pool, block_import,
    import_queue, genesis_hash, protocol_standard_name, network_config, warp_sync, build_network,
    offchain_workers, spawn_tasks, proposer, slot_duration,
  }

  -- the telemetry of `new_partial`: none, too, where the list of endpoints is empty
  unfoldable pub start_telemetry :
      Option (List Endpoint) → Outcome (Option (TelemetryWorker × Telemetry))
  start_telemetry none = value none
  start_telemetry (some []) = value none
  start_telemetry (some (e ∷ endpoints)) = do
    worker ← telemetry_worker 16
    value (some (worker, new_telemetry worker (e ∷ endpoints)))

  abbrev pub telemetry_tasks : Option (TelemetryWorker × Telemetry) → List (Task S)
  telemetry_tasks none = []
  telemetry_tasks (some (worker, _)) =
      record { name = "telemetry"; group = none; essential = false; job = run_telemetry worker }
      ∷ []

  abbrev pub handle_of : Option (TelemetryWorker × Telemetry) → Option Telemetry
  handle_of none = none
  handle_of (some (_, handle)) = some handle

  unfoldable pub new_partial : Configuration S → Outcome (Service S)
  new_partial config = do
    telemetry ← start_telemetry config.telemetry_endpoints
    parts ← new_full_parts config.settings (handle_of telemetry)
    let client = parts.0
    let backend = parts.1
    let keystore = parts.2
    let select_chain = longest_chain backend
    let pool = transaction_pool spawn_essential_handle config.settings client config.is_authority
    grandpa ← block_import client grandpa_justification_period select_chain (handle_of telemetry)
    import_queue ← import_queue grandpa.0 client spawn_essential_handle (handle_of telemetry)
    value (record {
      client = client;
      backend = backend;
      tasks = telemetry_tasks telemetry;
      import_queue = import_queue;
      keystore = keystore;
      select_chain = select_chain;
      transaction_pool = pool;
      block_import = grandpa.0;
      grandpa_link = grandpa.1;
      telemetry = handle_of telemetry;
    })

  -- `if config.offchain_worker.enabled { .. }`
  unfoldable pub start_offchain_workers :
      Configuration S → Service S → Network → Outcome (List (Task S))
  start_offchain_workers config service network =
      if config.offchain_worker_enabled
      then (do
        workers ←
            offchain_workers service.client config.is_authority service.keystore service.backend
              service.transaction_pool network
        value (
            record {
              name = "offchain-workers-runner";
              group = some "offchain-worker";
              essential = false;
              job = run_offchain_workers workers service.client spawn_handle;
            }
            ∷ []))
      else value []

  -- `if role.is_authority() { .. }`
  unfoldable pub start_authoring :
      Starters S → Configuration S → (Service S) → Sync → Outcome (List (Task S))
  start_authoring starters config service sync =
      if config.is_authority
      then (do
        let proposer_factory =
            proposer spawn_handle service.client service.transaction_pool service.telemetry
        slot_duration ← slot_duration service.client
        let params : StartAuraParams S = record {
          slot_duration = slot_duration;
          client = service.client;
          select_chain = service.select_chain;
          block_import = service.block_import;
          proposer_factory = proposer_factory;
          force_authoring = config.force_authoring;
          backoff_authoring_blocks = none;
          keystore = service.keystore;
          sync_oracle = sync;
          justification_sync_link = sync;
          block_proposal_slot_portion = (2, 3);
          max_block_proposal_slot_portion = none;
          telemetry = service.telemetry;
        }
        _ ← starters.start_aura params
        value (
            record {
              name = "aura";
              group = some "block-authoring";
              essential = true;
              job = run_aura params;
            }
            ∷ []))
      else value []

  -- what the voter is given
  abbrev pub grandpa_params :
      (Configuration S)
      → Service S
      → ProtocolName
      → Notifications
      → Network
      → Sync
      → GrandpaParams S
  grandpa_params config service protocol_name notifications network sync = record {
    gossip_duration_ms = 333;
    justification_generation_period = grandpa_justification_period;
    name = some config.node_name;
    observer_enabled = false;
    keystore = if config.is_authority then some service.keystore else none;
    local_role_is_authority = config.is_authority;
    telemetry = service.telemetry;
    protocol_name = protocol_name;
    link = service.grandpa_link;
    network = network;
    sync = sync;
    notification_service = notifications;
    pool = service.transaction_pool;
  }

  -- `if enable_grandpa { .. }`
  unfoldable pub start_voter :
      Starters S → Configuration S → (GrandpaParams S) → Outcome (List (Task S))
  start_voter starters config params =
      if not config.disable_grandpa
      then (do
        _ ← starters.run_grandpa_voter params
        value (
            record {
              name = "grandpa-voter";
              group = none;
              essential = true;
              job = run_voter params;
            }
            ∷ []))
      else value []

  -- `network_backend` stands for the type parameter `Network`
  unfoldable pub new_full :
      Starters S → NetworkBackendType → Configuration S → Outcome (List (Task S))
  new_full starters network_backend config = do
    service ← new_partial config
    genesis ← unwrap (genesis_hash service.client)
    let protocol_name = protocol_standard_name genesis config.settings
    let net = network_config network_backend config.settings protocol_name
    let warp = warp_sync service.backend service.grandpa_link
    built ←
        build_network network_backend config.settings net.0 service.client service.transaction_pool
          spawn_handle service.import_queue warp
    let network = built.0
    let sync = built.1
    offchain ← start_offchain_workers config service network
    _ ←
        spawn_tasks config.settings network service.client service.keystore service.transaction_pool
          (create_full S (record { client = service.client; pool = service.transaction_pool }))
          service.backend sync service.telemetry
    authoring ← start_authoring starters config service sync
    voter ←
        start_voter starters config (grandpa_params config service protocol_name net.1 network sync)
    value (service.tasks ++ (offchain ++ (authoring ++ voter)))
