-- ===== src/Runtime/Clock.antt =====
-- runtime/src/lib.rs: the slots of the chain, by which block numbers are tied to time, with the
-- configuration of pallet_timestamp and pallet_aura, crates of the polkadot-sdk.
pub mod Days
use qxchain.Prelude.{
  ℕ, zero, suc, ◌+◌, ◌*◌, ◌/◌, ◌^◌, ◌≤◌, ◌<◌, ◌≡◌, Bool, false, if◌then◌else◌, arith,
}
use qxchain.Runtime.{milli_secs_per_block, max_authorities}

-- `SLOT_DURATION`
abbrev pub slot_duration : ℕ
slot_duration = milli_secs_per_block

pub record TimestampConfig : Type 0 where
  pub minimum_period : ℕ

-- `pallet_timestamp::Config for Runtime`
abbrev pub timestamp_config : TimestampConfig
timestamp_config = record { minimum_period = slot_duration / 2 }

pub record AuraConfig : Type 0 where
  pub max_authorities : ℕ
  pub allow_multiple_blocks_per_slot : Bool
  pub slot_duration : ℕ

-- `MinimumPeriodTimesTwo` of pallet_aura, in the `u64` of a moment
pub record Aura : Type 0 where
  pub minimum_period_times_two : TimestampConfig → ℕ
  pub minimum_period_times_two_lem :
      (t : TimestampConfig)
      → t.minimum_period * 2 < 2 ^ 64
      → minimum_period_times_two t ≡ t.minimum_period * 2

-- `pallet_aura::Config for Runtime`
unfoldable pub aura_config : Aura → AuraConfig
aura_config A = record {
  max_authorities = max_authorities;
  allow_multiple_blocks_per_slot = false;
  slot_duration = A.minimum_period_times_two timestamp_config;
}

-- The moment, in milliseconds, and the slot of each block of a chain, as `on_initialize` and
-- `on_timestamp_set` of pallet_aura check them.
pub record Clock (config : AuraConfig) : Type 0 where
  pub moment : ℕ → ℕ
  pub current_slot : ℕ → ℕ
  pub current_slot_next :
      (n : ℕ)
      → if config.allow_multiple_blocks_per_slot
        then current_slot n ≤ current_slot (suc n)
        else current_slot n < current_slot (suc n)
  pub current_slot-moment : (n : ℕ) → current_slot n ≡ moment n / config.slot_duration

module _ (A : Aura) (clock : Clock (aura_config A)) where
  open clock use {moment, current_slot, current_slot_next, current_slot-moment}

  current_slot-add : (n k : ℕ) → current_slot n + k ≤ current_slot (k + n)
  unfolding aura_config
  current_slot-add n zero = ground arith
  current_slot-add n (suc k) =
      let next : suc k + n ≡ suc (k + n) = omega arith in
      rw next (omega (arith, current_slot-add n k, current_slot_next (k + n)))

  slot-moment : (n : ℕ) → current_slot n ≡ moment n / 6000
  unfolding aura_config
  slot-moment n =
      rw (← A.minimum_period_times_two_lem timestamp_config (omega arith)) (current_slot-moment n)

  -- as many slots lie between two blocks as there are blocks, and a slot is as long as a block
  pub moments_apart : (n k : ℕ) → moment n + k * slot_duration < moment (k + n) + slot_duration
  moments_apart n k = omega (arith, current_slot-add n k, slot-moment n, slot-moment (k + n))
