-- ===== src/Node/Service/Tasks.antt =====
-- Which tasks a node of node/src/service.rs starts, by its configuration.
use Prim.Native.String.{String}
use qxchain.Prelude.{
  ◌≡◌, refl, Bool, true, false, not, Option, none, some, List, [], ◌∷◌, ◌++◌, map, arith,
  if◌then◌else◌, sym, ap, ◌∙◌,
}
use mathlib.Core.List.{map-append}
use qxchain.Node.Outcome.{value, unwrap, ◌>>=◌, >>=-eq-value, value_inj}
use qxchain.Node.Sdk.{NetworkBackendType, Sdk}
use qxchain.Node.Service.{
  Configuration, Starters, Service, Task, Job, GrandpaParams, run_aura, run_voter, run_telemetry,
  run_offchain_workers, start_telemetry, new_partial, start_offchain_workers, start_authoring,
  start_voter, new_full, telemetry_tasks, handle_of,
}

abbrev pub is_some : {A : Type 0} → Option A → Bool
is_some none = false
is_some (some a) = true

abbrev pub when : {A : Type 0} → Bool → A → List A
when true a = a ∷ []
when false a = []

is_some-if : {A : Type 0} (b : Bool) (a : A) → is_some (if b then some a else none) ≡ b
is_some-if true a = refl
is_some-if false a = refl

module _ (S : Sdk) where
  -- whether the task is given keys to sign blocks or votes with
  abbrev pub signs : Job S → Bool
  signs (run_telemetry worker) = false
  signs (run_offchain_workers workers client handle) = false
  signs (run_aura params) = true
  signs (run_voter params) = is_some params.keystore

  -- the name of a task, whether the node stops with it, and whether it signs
  abbrev pub summary : Task S → String × Bool × Bool
  summary t = (t.name, t.essential, signs t.job)

  -- whether the telemetry has an endpoint
  abbrev pub has_endpoint : Option (List S.Endpoint) → Bool
  has_endpoint (some (_ ∷ _)) = true
  has_endpoint _ = false

module _ (S : Sdk) (starters : Starters S) (config : Configuration S) where
  telemetry-summary :
      (endpoints : Option (List S.Endpoint)) (x : Option (S.TelemetryWorker × S.Telemetry))
      → start_telemetry S endpoints ≡ value x
      → map (summary S) (telemetry_tasks S x)
        ≡ when (has_endpoint S endpoints) ("telemetry", false, false)
  unfolding start_telemetry
  telemetry-summary none x h = ground (arith, h)
  telemetry-summary (some []) x h = ground (arith, h)
  telemetry-summary (some (e ∷ es)) x h =
      let (w, _, r) = >>=-eq-value (S.telemetry_worker 16) _ x h in ground (arith, r)

  pub new_partial-summary :
      (service : Service S)
      → new_partial S config ≡ value service
      → map (summary S) service.tasks
        ≡ when (has_endpoint S config.telemetry_endpoints) ("telemetry", false, false)
  unfolding new_partial
  new_partial-summary service h =
      let (t, e, h1) = >>=-eq-value (start_telemetry S config.telemetry_endpoints) _ service h in
      let (parts, _, h2) =
        >>=-eq-value (S.new_full_parts config.settings (handle_of S t)) _ service h1 in
      let (grandpa, _, h3) = >>=-eq-value (S.block_import _ _ _ _) _ service h2 in
      let (queue, _, h4) = >>=-eq-value (S.import_queue _ _ _ _) _ service h3 in
      rw (← telemetry-summary config.telemetry_endpoints t e) (ground (arith, h4))

  start_offchain_workers-summary :
      (service : Service S) (network : S.Network) (tasks : List (Task S))
      → start_offchain_workers S config service network ≡ value tasks
      → map (summary S) tasks
        ≡ when config.offchain_worker_enabled ("offchain-workers-runner", false, false)
  unfolding start_offchain_workers
  start_offchain_workers-summary service network tasks h = ground (arith, h)

  start_authoring-summary :
      (service : Service S) (sync : S.Sync) (tasks : List (Task S))
      → start_authoring S starters config service sync ≡ value tasks
      → map (summary S) tasks ≡ when config.is_authority ("aura", true, true)
  unfolding start_authoring
  start_authoring-summary service sync tasks h = ground (arith, h)

  start_voter-summary :
      (params : GrandpaParams S) (tasks : List (Task S))
      → start_voter S starters config params ≡ value tasks
      → map (summary S) tasks
        ≡ when (not config.disable_grandpa) ("grandpa-voter", true, is_some params.keystore)
  unfolding start_voter
  start_voter-summary params tasks h = ground (arith, h)

  summaries-append :
      (a b c d : List (Task S)) (x y z w : List (String × Bool × Bool))
      → map (summary S) a ≡ x
      → map (summary S) b ≡ y
      → map (summary S) c ≡ z
      → map (summary S) d ≡ w
      → map (summary S) (a ++ (b ++ (c ++ d))) ≡ x ++ (y ++ (z ++ w))
  summaries-append a b c d x y z w p q r s =
      rw (map-append, map-append, map-append, p, q, r, s) refl

  voter_stage :
      (params : GrandpaParams S)
      → is_some params.keystore ≡ config.is_authority
      → (a b c : List (Task S)) (x y z : List (String × Bool × Bool)) → map (summary S) a ≡ x
      → map (summary S) b ≡ y
      → map (summary S) c ≡ z
      → (tasks : List (Task S))
      → (start_voter S starters config params >>= λ voter. value (a ++ (b ++ (c ++ voter))))
        ≡ value tasks
      → map (summary S) tasks
        ≡ x
          ++ (y
              ++ (z
                  ++ when
                      (not config.disable_grandpa)
                      ("grandpa-voter", true, config.is_authority)))
  voter_stage params e a b c x y z p q r tasks h =
      let (voter, e6, h6) = >>=-eq-value (start_voter S starters config params) _ tasks h in
      ap (map (summary S)) (sym (value_inj _ _ h6))
      ∙ summaries-append a b c voter _ _ _ _ p q r (
          start_voter-summary params voter e6
          ∙ ap (λ b. when (not config.disable_grandpa) ("grandpa-voter", true, b)) e)

  -- A node that starts runs exactly these tasks of its own: telemetry, if it has an endpoint to
  -- send to; the off-chain workers, if enabled; authoring, if it is an authority; and the voter of
  -- GRANDPA, unless disabled, with keys to vote if it is an authority. It stops with authoring or
  -- the voter, and not with the others.
  pub new_full-summary :
      (network : NetworkBackendType) (tasks : List (Task S))
      → new_full S starters network config ≡ value tasks
      → map (summary S) tasks
        ≡ when (has_endpoint S config.telemetry_endpoints) ("telemetry", false, false)
          ++ (when config.offchain_worker_enabled ("offchain-workers-runner", false, false)
              ++ (when config.is_authority ("aura", true, true)
                  ++ when
                      (not config.disable_grandpa)
                      ("grandpa-voter", true, config.is_authority)))
  unfolding new_full
  new_full-summary network tasks h =
      let (service, e0, h0) = >>=-eq-value (new_partial S config) _ tasks h in
      let (genesis, _, h1) = >>=-eq-value (unwrap (S.genesis_hash service.client)) _ tasks h0 in
      let (built, _, h2) = >>=-eq-value (S.build_network network _ _ _ _ _ _ _) _ tasks h1 in
      let (offchain, e3, h3) =
        >>=-eq-value (start_offchain_workers S config service built.0) _ tasks h2 in
      let (_, _, h4) = >>=-eq-value (S.spawn_tasks _ _ _ _ _ _ _ _ _) _ tasks h3 in
      let (authoring, e5, h5) =
        >>=-eq-value (start_authoring S starters config service built.1) _ tasks h4 in
      voter_stage _ (is_some-if _ _) service.tasks offchain authoring _ _ _
        (new_partial-summary service e0)
        (start_offchain_workers-summary service built.0 offchain e3)
        (start_authoring-summary service built.1 authoring e5) tasks h5
