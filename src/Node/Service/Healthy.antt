-- ===== src/Node/Service/Healthy.antt =====
-- When a node of node/src/service.rs starts.
use qxchain.Prelude.{
  ℕ, ◌≡◌, ◌≢◌, refl, inl, inr, true, false, Option, none, some, List, [], ◌∷◌, Bool-cases, Elem,
}
use Prim.Native.String.{String}
use qxchain.Node.Outcome.{value, unwrap, Ends, >>=-Ends}
use qxchain.Node.Sdk.{NetworkBackendType, SpawnHandle, Sdk}
use qxchain.Node.Rpc.{FullDeps, create_full}
use qxchain.Node.Rpc.Methods.{IsLawful, create_full_ok}
use qxchain.Node.Service.{
  Configuration, Starters, Service, Task, GrandpaParams, StartAuraParams, start_telemetry,
  new_partial, start_offchain_workers, start_authoring, start_voter, new_full,
}
use qxchain.Node.Service.Tasks.{has_endpoint}

module _ (S : Sdk) (method_names : S.RpcModule → List String) (l : IsLawful S method_names)
    (starters : Starters S) (config : Configuration S) where
  -- The operations of the SDK that this configuration needs end in a value, `spawn_tasks` where it
  -- is given an RPC module and not an error; and the two modules of the SDK that the node serves
  -- have no method in common.
  pub record IsHealthy : Type 0 where
    pub telemetry : has_endpoint S config.telemetry_endpoints ≡ true → Ends (S.telemetry_worker 16)
    pub parts : (t : Option S.Telemetry) → Ends (S.new_full_parts config.settings t)
    pub block_import :
        (c : S.Client) (n : ℕ) (s : S.SelectChain) (t : Option S.Telemetry)
        → Ends (S.block_import c n s t)
    pub import_queue :
        (b : S.BlockImport) (c : S.Client) (h : SpawnHandle) (t : Option S.Telemetry)
        → Ends (S.import_queue b c h t)
    pub genesis : (c : S.Client) → S.genesis_hash c ≢ none
    pub network :
        (b : NetworkBackendType) (n : S.NetworkConfig) (c : S.Client) (p : S.Pool) (h : SpawnHandle)
        (q : S.ImportQueue) (w : S.WarpSync)
        → Ends (S.build_network b config.settings n c p h q w)
    pub offchain :
        (c : S.Client) (k : S.Keystore) (b : S.Backend) (p : S.Pool) (n : S.Network)
        → config.offchain_worker_enabled ≡ true
        → Ends (S.offchain_workers c config.is_authority k b p n)
    pub tasks :
        (n : S.Network) (c : S.Client) (k : S.Keystore) (p : S.Pool) (r : S.RpcModule)
        (b : S.Backend) (y : S.Sync) (t : Option S.Telemetry)
        → Ends (S.spawn_tasks config.settings n c k p (value r) b y t)
    pub rpc :
        (c : S.Client) (p : S.Pool) (m : String)
        → Elem m (method_names (S.system_rpc c p))
        → ¬ Elem m (method_names (S.transaction_payment_rpc c))
    pub slot : (c : S.Client) → config.is_authority ≡ true → Ends (S.slot_duration c)
    pub aura :
        (params : StartAuraParams S)
        → config.is_authority ≡ true
        → Ends (starters.start_aura params)
    pub voter :
        (params : GrandpaParams S)
        → config.disable_grandpa ≡ false
        → Ends (starters.run_grandpa_voter params)

  start_telemetry_ok :
      (endpoints : Option (List S.Endpoint))
      → (has_endpoint S endpoints ≡ true → Ends (S.telemetry_worker 16))
      → Ends (start_telemetry S endpoints)
  unfolding start_telemetry
  start_telemetry_ok none h = (none, refl)
  start_telemetry_ok (some []) h = (none, refl)
  start_telemetry_ok (some (e ∷ es)) h =
      let (w, p) = h refl in (some (w, S.new_telemetry w (e ∷ es)), rw p)

  start_offchain_workers_ok :
      (service : Service S) (network : S.Network)
      → IsHealthy
      → Ends (start_offchain_workers S config service network)
  unfolding start_offchain_workers
  start_offchain_workers_ok service network h = elim (Bool-cases config.offchain_worker_enabled) [
    | inl e ↦ rw e (
        >>=-Ends (S.offchain_workers _ _ _ _ _ network) _ (h.offchain _ _ _ _ network e)
          (λ w. (_, refl)))
    | inr e ↦ rw e ([], refl)
  ]

  start_authoring_ok :
      (service : Service S) (sync : S.Sync)
      → IsHealthy
      → Ends (start_authoring S starters config service sync)
  unfolding start_authoring
  start_authoring_ok service sync h = elim (Bool-cases config.is_authority) [
    | inl e ↦ rw e (
        >>=-Ends (S.slot_duration service.client) _ (h.slot service.client e)
          (λ n. >>=-Ends (starters.start_aura _) _ (h.aura _ e) (λ u. (_, refl))))
    | inr e ↦ rw e ([], refl)
  ]

  start_voter_ok :
      (params : GrandpaParams S) → IsHealthy → Ends (start_voter S starters config params)
  unfolding start_voter
  start_voter_ok params h = elim (Bool-cases config.disable_grandpa) [
    | inl e ↦ rw e ([], refl)
    | inr e ↦
        rw e (>>=-Ends (starters.run_grandpa_voter params) _ (h.voter params e) (λ u. (_, refl)))
  ]

  new_partial_ok : IsHealthy → Ends (new_partial S config)
  unfolding new_partial
  new_partial_ok h =
      >>=-Ends (start_telemetry S config.telemetry_endpoints) _
        (start_telemetry_ok config.telemetry_endpoints h.telemetry)
        (λ t. >>=-Ends (S.new_full_parts config.settings _) _ (h.parts _) (λ parts.
          >>=-Ends (S.block_import _ _ _ _) _ (h.block_import _ _ _ _)
            (λ g. >>=-Ends (S.import_queue _ _ _ _) _ (h.import_queue _ _ _ _) (λ q. (_, refl)))))

  unwrap_ok : {A : Type 0} (o : Option A) → o ≢ none → Ends (unwrap o)
  unwrap_ok none h = absurd (h refl)
  unwrap_ok (some a) h = (a, refl)

  spawn_tasks_ok :
      (service : Service S) (network : S.Network) (sync : S.Sync)
      → IsHealthy
      → let deps : FullDeps S = record {
        client = service.client;
        pool = service.transaction_pool;
      } in
        Ends (
          S.spawn_tasks config.settings network service.client service.keystore
            service.transaction_pool
            (create_full S deps)
            service.backend
            sync
            service.telemetry)
  spawn_tasks_ok service network sync h =
      let deps : FullDeps S = record { client = service.client; pool = service.transaction_pool } in
      let (m, e) =
        create_full_ok S method_names l deps (h.rpc service.client service.transaction_pool) in
      rw e (
        h.tasks network service.client service.keystore service.transaction_pool m service.backend
          sync service.telemetry)

  -- A node starts if the operations that its configuration needs end in a value: those of authoring
  -- are needed by an authority only, those of the voter only where it is not disabled, and those of
  -- telemetry and of the off-chain workers only where they are asked for. RPC needs no more than that
  -- the methods of its two modules have different names, as jsonrpsee merges them.
  pub new_full_ok :
      (network : NetworkBackendType)
      → IsHealthy
      → (tasks : List (Task S)) × (new_full S starters network config ≡ value tasks)
  unfolding new_full
  new_full_ok network h = >>=-Ends (new_partial S config) _ (new_partial_ok h) (λ service.
      >>=-Ends (unwrap (S.genesis_hash service.client)) _ (unwrap_ok _ (h.genesis service.client))
        (λ g.
          >>=-Ends (S.build_network network config.settings _ _ _ _ _ _) _
            (h.network network _ _ _ _ _ _)
            (λ built.
              >>=-Ends (start_offchain_workers S config service built.0) _
                (start_offchain_workers_ok service built.0 h)
                (λ offchain.
                  >>=-Ends (S.spawn_tasks config.settings _ _ _ _ _ _ _ _) _
                    (spawn_tasks_ok service built.0 built.1 h)
                    (λ u.
                      >>=-Ends (start_authoring S starters config service built.1) _
                        (start_authoring_ok service built.1 h)
                        (λ authoring.
                          >>=-Ends (start_voter S starters config _) _ (start_voter_ok _ h)
                            (λ voter. (_, refl))))))))
