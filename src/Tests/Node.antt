-- ===== src/Tests/Node.antt =====
-- node/src on concrete data: keys that are texts, a build with a runtime of one byte, and an SDK
-- all of whose operations end in a value.
use Prim.Native.String
use Prim.Native.String.{String}
use qxchain.Prelude.{
  ◌++◌, ◌||◌, ◌↔◌, if◌then◌else◌, arith, ℕ, ⊤, ◌≡◌, refl, inl, inr, ◌⊎◌, Bool, true, false, none,
  some, List, [], ◌∷◌, map, Elem,
}
use qxchain.Node.Outcome.{Outcome, value, error, ◌>>=◌}
use qxchain.Node.ChainSpec.{
  Crypto, ChainSpec, get_account_id_from_seed, authority_keys_from_seed, authority_keys_from_ss58,
}
use qxchain.Node.Command.Loaded.{HasKeys}
use qxchain.Node.Command.Cli.{Commands, Cli, revert}
use qxchain.Node.Command.Run.{Process, command, run, run_command}
use qxchain.Node.Command.Started.{Starts, parts, run-Starts}
use text.Mathlib.TextEquality.{eq_iff}
use text.Mathlib.Text.{◌==◌}
use qxchain.Node.Rpc.{create_full}
use qxchain.Node.Rpc.Methods.{IsLawful, create_full-methods}
use qxchain.Node.Sdk.{litep2p, libp2p, Sdk}
use qxchain.Node.Service.{
  telemetry_tasks, Configuration, Starters, Task, new_full, new_partial, start_telemetry,
  start_offchain_workers, start_authoring, start_voter,
}
use qxchain.Node.Service.Tasks.{summary, new_full-summary}
use qxchain.Node.Service.Healthy.{IsHealthy, new_full_ok}

data Account : Type 0 where
  from_key : String → Account
  from_bytes : List ℕ → Account

abbrev crypto : Crypto Account
crypto = record {
  AuraId = String;
  GrandpaId = String;
  Public = String;
  H256 = String;
  sr25519_from_string = λ s. some s;
  aura_from_string = λ s. some s;
  grandpa_from_string = λ s. some s;
  into_account = from_key;
  account_from_ss58check = λ s. some (from_key s);
  aura_from_ss58check = λ s. some s;
  grandpa_from_ss58check = λ s. some s;
  account_id32 = from_bytes;
  h256_from_str = λ s. some s;
}

-- no file is found
abbrev no_file : String → Outcome (ChainSpec crypto)
no_file path = error "Error opening spec file"

abbrev with_slashes : String → String
with_slashes s = Prim.Native.String.◌++◌ "//" s

unfoldable keys : HasKeys crypto no_file
unfolding get_account_id_from_seed authority_keys_from_seed authority_keys_from_ss58
keys = record {
  bad_block = "0x0000000000000000000000000000000000000000000000000000000000000000";
  validator = from_key "5GyAAHVMUiumNzDxQAYT4uUNPGuufv383MiKyDNkwTndHBog";
  account = λ s. from_key (with_slashes s);
  seed_authority = λ s. (with_slashes s, with_slashes s);
  authority = λ x. x;
  hash = refl;
  sudo = refl;
  seed_accounts = λ s h. refl;
  seed_keys = λ s h. refl;
  keys = λ a b h. refl;
}

-- a number for the account of each seed
abbrev index_of : Account → ℕ
index_of (from_bytes bytes) = 0
index_of (from_key s) =
    if s == "//Alice"
    then 1
    else if s == "//Bob"
    then 2
    else if s == "//Charlie"
    then 3
    else if s == "//Dave"
    then 4
    else if s == "//Eve"
    then 5
    else 6

abbrev has : String → List String → Bool
has n [] = false
has n (m ∷ ms) = n == m || has n ms

abbrev overlap : List String → List String → Bool
overlap [] ys = false
overlap (a ∷ xs) ys = has a ys || overlap xs ys

abbrev merge : List String → List String → Outcome (List String)
merge xs ys = if overlap xs ys then error "already registered" else value (xs ++ ys)

has-Elem : (n : String) (ms : List String) → (has n ms ≡ true) ↔ Elem n ms
has-Elem n [] = ground arith
has-Elem n (m ∷ ms) = ground (arith, eq_iff n m, has-Elem n ms)

Elem-append : (n : String) (xs ys : List String) → Elem n (xs ++ ys) ↔ (Elem n xs ⊎ Elem n ys)
Elem-append n [] ys = ground arith
Elem-append n (a ∷ xs) ys = ground (arith, Elem-append n xs ys)

overlap_disjoint :
    (xs ys : List String) → ((n : String) → Elem n xs → ¬ Elem n ys) → overlap xs ys ≡ false
overlap_disjoint [] ys h = refl
overlap_disjoint (a ∷ xs) ys h =
    let rest = overlap_disjoint xs ys (λ n m. h n (inr m)) in
    ground (arith, h a (inl refl), has-Elem a ys, rest)

overlap_clash : (xs ys : List String) (n : String) → Elem n xs → Elem n ys → overlap xs ys ≡ true
overlap_clash [] ys n h k = absurd h
overlap_clash (a ∷ xs) ys n h k = ground (arith, h, k, has-Elem n ys, overlap_clash xs ys n)

abbrev sdk : Sdk
sdk = record {
  Endpoint = String;
  Settings = ⊤;
  TelemetryWorker = ℕ;
  Telemetry = List String;
  Client = ⊤;
  Backend = ⊤;
  Keystore = ℕ;
  SelectChain = ⊤;
  Pool = Bool;
  BlockImport = ℕ;
  LinkHalf = ⊤;
  ImportQueue = ℕ;
  Hash = ℕ;
  ProtocolName = ℕ;
  NetworkConfig = ℕ;
  Notifications = ⊤;
  WarpSync = ⊤;
  Network = ℕ;
  Sync = ⊤;
  OffchainWorkers = Bool;
  Proposer = Bool;
  telemetry_worker = value;
  new_telemetry = λ worker endpoints. endpoints;
  new_full_parts = λ settings t. value (tt, tt, 5);
  longest_chain = λ b. tt;
  transaction_pool = λ handle settings c authority. authority;
  block_import = λ c n chain t. value (n, tt);
  import_queue = λ b c h t. value b;
  genesis_hash = λ c. some 77;
  protocol_standard_name = λ h settings. h;
  default_network_backend = litep2p;
  network_config = λ b settings name. (name, tt);
  warp_sync = λ b link. tt;
  build_network = λ b settings n c p h q w. value (n, tt);
  offchain_workers = λ c authority k b p n. value authority;
  RpcModule = List String;
  rpc_new = [];
  rpc_merge = merge;
  system_rpc = λ c p. "system_accountNextIndex" ∷ [];
  transaction_payment_rpc = λ c. "payment_queryInfo" ∷ [];
  -- the module is built first
  spawn_tasks = λ settings n c k p r b y t. r >>= λ module_1. value tt;
  proposer = λ h c p t. p;
  slot_duration = λ c. value 6000;
}

merge-IsLawful : IsLawful sdk (λ ns. ns)
merge-IsLawful = record {
  names-new = refl;
  names-merge = λ a b m n e. ground (arith, e, Elem-append n a b);
  merge_disjoint = λ a b h. (a ++ b, rw (overlap_disjoint a b h) refl);
  merge_clash = λ a b n h k. ("already registered", rw (overlap_clash a b n h k) refl);
}

two_methods :
    (m : String) → Elem m ("system_accountNextIndex" ∷ []) → ¬ Elem m ("payment_queryInfo" ∷ [])
two_methods m h k =
    absurd (ground (arith, h, k, eq_iff "system_accountNextIndex" "payment_queryInfo"))

abbrev starters : Starters sdk
starters = record { start_aura = λ params. value tt; run_grandpa_voter = λ params. value tt }

-- a validator with telemetry and without off-chain workers
abbrev validator : Configuration sdk
validator = record {
  telemetry_endpoints = some ("wss://telemetry" ∷ []);
  is_authority = true;
  offchain_worker_enabled = false;
  force_authoring = false;
  disable_grandpa = false;
  node_name = "validator";
  network_backend = none;
  settings = tt;
}

validator-IsHealthy : IsHealthy sdk (λ ns. ns) merge-IsLawful starters validator
validator-IsHealthy = record {
  telemetry = λ e. (16, refl);
  parts = λ t. (_, refl);
  block_import = λ c n s t. (_, refl);
  import_queue = λ b c h t. (_, refl);
  genesis = λ c. cc;
  network = λ b n c p h q w. (_, refl);
  offchain = λ c k b p n e. (_, refl);
  tasks = λ n c k p r b y t. (tt, refl);
  rpc = λ c p m. two_methods m;
  slot = λ c e. (_, refl);
  aura = λ params e. (tt, refl);
  voter = λ params e. (tt, refl);
}

new_full_ok_example :
    (tasks : List (Task sdk)) × (new_full sdk starters libp2p validator ≡ value tasks)
new_full_ok_example =
    new_full_ok sdk (λ ns. ns) merge-IsLawful starters validator libp2p validator-IsHealthy

abbrev tasks_of : Outcome (List (Task sdk)) → List (Task sdk)
tasks_of (value tasks) = tasks
tasks_of _ = []

abbrev validator_tasks : List (Task sdk)
validator_tasks = tasks_of (new_full sdk starters libp2p validator)

new_full-summary_example :
    map (summary sdk) validator_tasks
    ≡ ("telemetry", false, false) ∷ ("aura", true, true) ∷ ("grandpa-voter", true, true) ∷ []
unfolding new_full new_partial start_telemetry start_offchain_workers start_authoring start_voter
    create_full
new_full-summary_example = new_full-summary sdk starters validator libp2p validator_tasks refl

-- commands that are their own names, and futures that are the tasks of a client
abbrev commands : Commands sdk
commands = record {
  KeySubcommand = ⊤;
  BuildSpecCmd = ⊤;
  CheckBlockCmd = ⊤;
  ExportBlocksCmd = ⊤;
  ExportStateCmd = ⊤;
  ImportBlocksCmd = ⊤;
  PurgeChainCmd = ⊤;
  RevertCmd = ℕ;
  ChainInfoCmd = ⊤;
  RunCmd = ⊤;
  Future = ℕ;
  Spec = ⊤;
  NetworkConfiguration = ⊤;
  Database = ⊤;
  chain_spec = λ settings. tt;
  network = λ settings. tt;
  database = λ settings. tt;
  key_run = λ cmd. value tt;
  build_spec_run = λ cmd spec network. value tt;
  check_block_run = λ cmd client queue. queue;
  export_blocks_run = λ cmd client database. 0;
  export_state_run = λ cmd client spec. 0;
  import_blocks_run = λ cmd client queue. queue;
  purge_chain_run = λ cmd database. error "not confirmed";
  revert_run = λ blocks client backend. blocks;
  chain_info_run = λ cmd config. value tt;
}

-- reverting 12 blocks, on the machine of the validator
abbrev revert_line : Cli sdk commands
revert_line = record { subcommand = some (revert 12); run = tt }

abbrev as_validator : Cli sdk commands → Outcome (Configuration sdk)
as_validator cli = value validator

abbrev telemetry_process : Process sdk commands
telemetry_process = command 12 (telemetry_tasks sdk (some (16, "wss://telemetry" ∷ [])))

run-Starts_example :
    Starts sdk commands starters as_validator revert_line parts (("telemetry", false, false) ∷ [])
unfolding run run_command new_partial start_telemetry
run-Starts_example =
    run-Starts sdk commands starters as_validator revert_line telemetry_process refl

abbrev served : List String
served = "system_accountNextIndex" ∷ "payment_queryInfo" ∷ []

create_full-methods_example :
    ((n : String)
      → Elem n served
        ↔ (Elem n ("system_accountNextIndex" ∷ []) ⊎ Elem n ("payment_queryInfo" ∷ [])))
    × ((n : String)
        → ¬ (Elem n ("system_accountNextIndex" ∷ []) × Elem n ("payment_queryInfo" ∷ [])))
unfolding create_full
create_full-methods_example =
    create_full-methods sdk (λ ns. ns) merge-IsLawful (record { client = tt; pool = true }) served
      refl
