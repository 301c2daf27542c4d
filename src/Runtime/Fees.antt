-- ===== src/Runtime/Fees.antt =====
-- What the `#[pallet::weight(..)]` attributes of the three pallets declare of each call, and with
-- it runtime/src/lib.rs.
pub mod Free
use qxchain.Prelude.{ℕ}
use qxchain.Frame.Dispatch.{DispatchInfo, Pays, pays_yes, pays_no, normal}
use qxchain.Kilt
use qxchain.Ai
use qxchain.Faucet
use qxchain.Runtime.{RuntimeCall, qx_kilt_permissions, qx_ai, qx_faucet}

-- `Weight::from_parts(ref_time, 0)`, with the class `Normal`
abbrev info : ℕ → Pays → DispatchInfo
info ref_time pays_fee = record {
  ref_time = ref_time;
  proof_size = 0;
  class = normal;
  pays_fee = pays_fee;
}

-- the attribute of each call; the two free calls of the AI pallet return `Pays::No` once more
abbrev set_governance_did_info : DispatchInfo
set_governance_did_info = info 10000 pays_yes

abbrev create_worker_did_info : DispatchInfo
create_worker_did_info = info 10000 pays_yes

abbrev issue_worker_credential_info : DispatchInfo
issue_worker_credential_info = info 10000 pays_yes

abbrev revoke_worker_credential_info : DispatchInfo
revoke_worker_credential_info = info 10000 pays_yes

abbrev suspend_worker_info : DispatchInfo
suspend_worker_info = info 10000 pays_yes

abbrev submit_request_info : DispatchInfo
submit_request_info = info 10000 pays_yes

abbrev update_ai_worker_status_info : DispatchInfo
update_ai_worker_status_info = info 10000 pays_no

abbrev submit_inference_info : DispatchInfo
submit_inference_info = info 10000 pays_no

abbrev add_allowed_model_info : DispatchInfo
add_allowed_model_info = info 10000 pays_yes

abbrev claim_info : DispatchInfo
claim_info = info 50000 pays_no

abbrev fund_faucet_info : DispatchInfo
fund_faucet_info = info 50000 pays_yes

abbrev kilt_info : Kilt.Call → DispatchInfo
kilt_info (Kilt.Call.set_governance_did did) = set_governance_did_info
kilt_info (Kilt.Call.create_worker_did name description) = create_worker_did_info
kilt_info (Kilt.Call.issue_worker_credential did models period) = issue_worker_credential_info
kilt_info (Kilt.Call.revoke_worker_credential did) = revoke_worker_credential_info
kilt_info (Kilt.Call.suspend_worker did duration) = suspend_worker_info

module _ {AccountId : Type 0} where
  abbrev ai_info : Ai.Call AccountId → DispatchInfo
  ai_info (Ai.Call.submit_request target prompt max_tokens) = submit_request_info
  ai_info (Ai.Call.update_ai_worker_status online) = update_ai_worker_status_info
  ai_info (Ai.Call.submit_inference id output) = submit_inference_info
  ai_info (Ai.Call.add_allowed_model id name hash) = add_allowed_model_info

  abbrev faucet_info : Faucet.Call AccountId → DispatchInfo
  faucet_info (Faucet.Call.claim account) = claim_info
  faucet_info (Faucet.Call.fund_faucet amount) = fund_faucet_info

  -- `GetDispatchInfo` of `RuntimeCall`
  unfoldable pub get_dispatch_info : RuntimeCall AccountId → DispatchInfo
  get_dispatch_info (qx_kilt_permissions c) = kilt_info c
  get_dispatch_info (qx_ai c) = ai_info c
  get_dispatch_info (qx_faucet c) = faucet_info c
