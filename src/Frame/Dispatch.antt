-- ===== src/Frame/Dispatch.antt =====
-- What `#[pallet::weight(..)]` says of a call (frame_support::dispatch), and whether its sender
-- pays.
use qxchain.Prelude.{ℕ}

pub data DispatchClass : Type 0 where
  normal : DispatchClass

pub data Pays : Type 0 where
  pays_yes pays_no : Pays

pub record DispatchInfo : Type 0 where
  pub ref_time : ℕ
  pub proof_size : ℕ
  pub class : DispatchClass
  pub pays_fee : Pays
