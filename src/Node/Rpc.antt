-- ===== src/Node/Rpc.antt =====
-- node/src/rpc.rs
pub mod Methods
use qxchain.Node.Outcome.{Outcome, value, ◌>>=◌}
use qxchain.Node.Sdk.{Sdk}

module _ (S : Sdk) where
  open S use {Client, Pool, RpcModule, rpc_new, rpc_merge, system_rpc, transaction_payment_rpc}

  pub record FullDeps : Type 0 where
    pub client : Client
    pub pool : Pool

  unfoldable pub create_full : FullDeps → Outcome RpcModule
  create_full deps = do
    module_1 ← rpc_merge rpc_new (system_rpc deps.client deps.pool)
    module_2 ← rpc_merge module_1 (transaction_payment_rpc deps.client)
    value module_2
