-- ===== src/Node/Service/Types.antt =====
-- node/src/service.rs: the data that it puts together.
use Prim.Native.String.{String}
use qxchain.Prelude.{ℕ, ⊤, Bool, Option, List}
use qxchain.Node.Outcome.{Outcome}
use qxchain.Node.Sdk.{Sdk, NetworkBackendType, SpawnHandle}

module _ (S : Sdk) where
  open S use {
    Endpoint, Settings, TelemetryWorker, Telemetry, Client, Backend, Keystore, SelectChain, Pool,
    BlockImport, LinkHalf, ImportQueue, ProtocolName, Notifications, Network, Sync, OffchainWorkers,
    Proposer, transaction_pool, block_import, import_queue, slot_duration,
  }

  pub record Configuration : Type 0 where
    pub telemetry_endpoints : Option (List Endpoint)
    -- `role.is_authority()`
    pub is_authority : Bool
    pub offchain_worker_enabled : Bool
    pub force_authoring : Bool
    pub disable_grandpa : Bool
    pub node_name : String
    pub network_backend : Option NetworkBackendType
    pub settings : Settings

  -- what `new_full` gives to `start_aura`
  pub record StartAuraParams : Type 0 where
    pub slot_duration : ℕ
    pub client : Client
    pub select_chain : SelectChain
    pub block_import : BlockImport
    pub proposer_factory : Proposer
    pub force_authoring : Bool
    pub backoff_authoring_blocks : Option ⊤
    pub keystore : Keystore
    pub sync_oracle : Sync
    pub justification_sync_link : Sync
    -- parts of the slot, as fractions
    pub block_proposal_slot_portion : ℕ × ℕ
    pub max_block_proposal_slot_portion : Option (ℕ × ℕ)
    pub telemetry : Option Telemetry

  -- and to `run_grandpa_voter`
  pub record GrandpaParams : Type 0 where
    pub gossip_duration_ms : ℕ
    pub justification_generation_period : ℕ
    pub name : Option String
    pub observer_enabled : Bool
    pub keystore : Option Keystore
    pub local_role_is_authority : Bool
    pub telemetry : Option Telemetry
    pub protocol_name : ProtocolName
    pub link : LinkHalf
    pub network : Network
    pub sync : Sync
    pub notification_service : Notifications
    pub pool : Pool

  pub data Job : Type 0 where
    run_telemetry : TelemetryWorker → Job
    run_offchain_workers : OffchainWorkers → Client → SpawnHandle → Job
    run_aura : StartAuraParams → Job
    run_voter : GrandpaParams → Job

  -- a task that the service itself hands to the task manager
  pub record Task : Type 0 where
    pub name : String
    pub group : Option String
    pub essential : Bool
    pub job : Job

  -- `start_aura` and `run_grandpa_voter` of the SDK, which may fail and else give the task to run
  pub record Starters : Type 0 where
    pub start_aura : StartAuraParams → Outcome ⊤
    pub run_grandpa_voter : GrandpaParams → Outcome ⊤

  -- `Service`, the `PartialComponents` with the tasks that the service itself has spawned so far
  pub record Service : Type 0 where
    pub client : Client
    pub backend : Backend
    pub tasks : List Task
    pub import_queue : ImportQueue
    pub keystore : Keystore
    pub select_chain : SelectChain
    pub transaction_pool : Pool
    pub block_import : BlockImport
    pub grandpa_link : LinkHalf
    pub telemetry : Option Telemetry
