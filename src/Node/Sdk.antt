-- ===== src/Node/Sdk.antt =====
-- What node/src uses of the crates of the polkadot-sdk, as parameters.
use qxchain.Prelude.{ℕ, ⊤, Bool, Option, List}
use qxchain.Node.Outcome.{Outcome}

-- `sc_network::config::NetworkBackendType`, which picks the type `Network` that `new_full` is
-- generic in
pub data NetworkBackendType : Type 0 where
  libp2p litep2p : NetworkBackendType

-- The two handles of a `TaskManager` that the service gives to others, by which they spawn tasks
-- of their own: the node stops with a task of the essential one.
pub data SpawnHandle : Type 0 where
  spawn_handle spawn_essential_handle : SpawnHandle

-- What the service uses of the crates of the polkadot-sdk. An operation that may fail ends in an
-- `Outcome`, with the message of its `ServiceError`.
pub record Sdk : Type 1 where
  pub Endpoint : Type 0
  -- what is in a `Configuration` beside the fields of `Configuration` below
  pub Settings : Type 0
  pub TelemetryWorker : Type 0
  pub Telemetry : Type 0
  pub Client : Type 0
  pub Backend : Type 0
  pub Keystore : Type 0
  pub SelectChain : Type 0
  pub Pool : Type 0
  pub BlockImport : Type 0
  pub LinkHalf : Type 0
  pub ImportQueue : Type 0
  pub Hash : Type 0
  pub ProtocolName : Type 0
  pub NetworkConfig : Type 0
  pub Notifications : Type 0
  pub WarpSync : Type 0
  pub Network : Type 0
  pub Sync : Type 0
  pub OffchainWorkers : Type 0
  pub Proposer : Type 0
  pub RpcModule : Type 0
  pub telemetry_worker : ℕ → Outcome TelemetryWorker
  pub new_telemetry : TelemetryWorker → List Endpoint → Telemetry
  pub new_full_parts : Settings → Option Telemetry → Outcome (Client × Backend × Keystore)
  pub longest_chain : Backend → SelectChain
  pub transaction_pool : SpawnHandle → Settings → Client → Bool → Pool
  pub block_import : Client → ℕ → SelectChain → Option Telemetry → Outcome (BlockImport × LinkHalf)
  pub import_queue : BlockImport → Client → SpawnHandle → Option Telemetry → Outcome ImportQueue
  -- `block_hash(0)` of the client, with an error taken for no hash
  pub genesis_hash : Client → Option Hash
  pub protocol_standard_name : Hash → Settings → ProtocolName
  -- the configuration of the network, with the protocol of GRANDPA added
  pub network_config : NetworkBackendType → Settings → ProtocolName → NetworkConfig × Notifications
  -- `NetworkBackendType::default`
  pub default_network_backend : NetworkBackendType
  pub warp_sync : Backend → LinkHalf → WarpSync
  pub build_network :
      NetworkBackendType
      → Settings
      → NetworkConfig
      → Client
      → Pool
      → SpawnHandle
      → ImportQueue
      → WarpSync
      → Outcome (Network × Sync)
  pub offchain_workers :
      Client → Bool → Keystore → Backend → Pool → Network → Outcome OffchainWorkers
  -- `RpcModule::new`, and `merge` of jsonrpsee, which fails on a method that both have
  pub rpc_new : RpcModule
  pub rpc_merge : RpcModule → RpcModule → Outcome RpcModule
  -- `into_rpc` of `System::new` and of `TransactionPayment::new`
  pub system_rpc : Client → Pool → RpcModule
  pub transaction_payment_rpc : Client → RpcModule
  -- the tasks of every node: RPC, with the module that a builder makes, telemetry of the chain, the
  -- maintenance of the pool
  pub spawn_tasks :
      Settings
      → Network
      → Client
      → Keystore
      → Pool
      → Outcome RpcModule
      → Backend
      → Sync
      → Option Telemetry
      → Outcome ⊤
  pub proposer : SpawnHandle → Client → Pool → Option Telemetry → Proposer
  pub slot_duration : Client → Outcome ℕ
