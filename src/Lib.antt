-- ===== src/Lib.antt =====
-- A model of QX Chain: the three pallets of the repository, how the runtime wires them together,
-- the genesis of its chains, and how a node is put together.
--
-- The parts. The KILT permissions pallet (pallets/pallet-qx-kilt-permissions/src/lib.rs) keeps
-- the DIDs of workers and the credentials that root issues for them. The AI pallet
-- (pallets/pallet-qx-ai/src/lib.rs) takes requests to a worker into the queue of that worker,
-- and answers from it, and asks the KILT pallet for the DID and the credential of the worker.
-- The faucet pallet (pallets/pallet-qx-faucet/src/lib.rs) pays from a pot account to whoever
-- claims. The runtime (runtime/src/lib.rs) configures the pallets and gives the AI pallet its
-- KILT interface. A chain starts from a genesis: a preset of the runtime
-- (`genesis_config_presets`), or a specification of the node (node/src/chain_spec), which
-- node/src/command.rs picks by its name. The node (node/src/service.rs) starts the tasks that
-- its configuration asks for.
--
-- The files. A pallet is a file with a child `Types` for its data: Kilt, Ai and Faucet. A call
-- of the Rust code is a function of the same name in snake case, from the block number, the
-- origin and the arguments, in the monad `Exec` of Frame/Call: the storage of the pallet is the
-- state, a record `State` with a field for each storage item and one for the events deposited so
-- far, and an early return with `?` or `ensure!` is an `err`. A read-only helper function takes
-- the state. `dispatch` is the call that a transaction names, inside the storage layer that
-- `#[pallet::call]` puts around its body, so that a failed call leaves no write; `run` is a
-- history of dispatched calls. Runtime has the same for the three pallets together. The other
-- children of a pallet hold proofs and are named for what they prove; `Outcomes` gives the
-- result of each call by how it ends, and `Replay` is a book that a reader keeps of the events
-- alone, as a specification of the storage; `Kilt.Order` runs the loops over the worker map in
-- two orders beside each other. Genesis is the object that presets and specifications write,
-- Runtime/Presets has the presets, and Node has the node: ChainSpec, with Localnet and Mainnet
-- for localnet.rs and mainnet.rs, Command for `load_spec` with Command/Cli for cli.rs and
-- Command/Run for `run`, Rpc for rpc.rs, and Service. Runtime/Extrinsics has the transactions
-- that carry the calls of the three pallets, and Runtime/Fees what the weight attributes of the
-- calls declare, by which the runtime takes a fee or none. Runtime/Clock ties block numbers to
-- time: the slots that the configuration of pallet_aura and pallet_timestamp makes. A function
-- of the node ends in an `Outcome` of Node/Outcome: a value, the error of `?`, or the panic of
-- `unwrap` and `expect`. Errors is `DispatchError`. Prelude has the shared names, Boolean tests,
-- lists over the native numbers, and the arithmetic of `u32`. Tests has a concrete instance of
-- every parameter, and runs of the code.
--
-- The parameters. Code of the polkadot-sdk is not in the repository. Frame is the interface to
-- what the pallets use of FRAME: storage maps, whose order of iteration is left open, bounded
-- vectors, origins, the storage layer and the hash. Currency is the interface to `Currency` of
-- frame_support, with the documented laws of transfers that keep their source alive.
-- `account_id32` is `AccountId32::new` of sp_runtime. GenesisBuild is what pallet_balances makes
-- of the balances of a genesis. Keyrings, Crypto and the Sdk of Node/Sdk are what the presets,
-- the specifications and the service use of the SDK: keys by name, keys from seeds and from SS58
-- addresses, and the builders of a node's parts, each of which may fail. Of the tasks of a node
-- only those that the code of the service hands to the task manager itself are listed; the parts
-- of the SDK spawn theirs by the handles that they are given. Commands is what sc_cli's commands
-- do, and Executive is how frame_executive and the sudo pallet dispatch the call of a
-- transaction: with what origin, if at all. Clock is what pallet_aura checks of the slot and the
-- moment of each block. WASM_BINARY, which the build makes, is an argument. Where a theorem
-- needs it, it assumes that no two accounts have one DID (`NoCollision`), which is a property of
-- the hash.
--
-- The bounds. Block numbers, ids and counters are native numbers, and every `u32` operation
-- keeps its bound: `saturating_add` stops at the largest `u32`, and `+ 1` on an id wraps, as in
-- the release profile. Theorems about ids assume that they have not run out. Balances are native
-- numbers: the currency refuses what does not fit. Loops are recursions on the list that they
-- run over, so nothing has fuel. An argument of a call whose type is a `BoundedVec` is taken to
-- be within its bound, which decoding checks.
--
-- Not modelled: how the SDK charges weights and fees, so that a signed extrinsic costs nothing
-- here; encoding, the pallets of the SDK and the runtime APIs that forward to them; of the node,
-- the metrics and inherent data that new_full passes on; and the build scripts.
pub mod Prelude
pub mod Errors
pub mod Frame
pub mod Currency
pub mod Kilt
pub mod Ai
pub mod Faucet
pub mod Genesis
pub mod Runtime
pub mod Node
mod Tests
