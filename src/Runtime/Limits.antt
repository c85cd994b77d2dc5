-- ===== src/Runtime/Limits.antt =====
-- The weights that a block of runtime/src/lib.rs may have. Weights, their parts and the builder of
-- frame_system's limits are parameters.
use Prim.Native.Nat.{◌/◌, ◌%◌}
use gas_leap.Base.{ℕ, ◌*◌, ◌^◌, ◌≡◌, refl, Option, some}
use gas_leap.Runtime.{period, session_length, kick_threshold, minimum_period, slot_duration}

pub data DispatchClass : Type 0 where
  normal operational mandatory : DispatchClass

-- What the closures of the builder set.
pub record WeightsPerClass (Weight : Type 0) : Type 0 where
  pub base_extrinsic : Weight
  pub max_total : Option Weight
  pub reserved : Option Weight

-- `WEIGHT_REF_TIME_PER_SECOND`, `MAX_POV_SIZE` and the weights of an empty block and extrinsic, the
-- operations on weights, and the builder: `for_all` is for `DispatchClass::all()`.
pub record BlockLimits (Perbill Weight Builder BlockWeights : Type 0) : Type 0 where
  pub ref_time_per_second : ℕ
  pub max_pov_size : ℕ
  pub block_execution_weight : Weight
  pub extrinsic_base_weight : Weight
  pub from_percent : ℕ → Perbill
  pub from_parts : ℕ → ℕ → Weight
  pub portion : Perbill → Weight → Weight
  pub minus : Weight → Weight → Weight
  pub saturating_div : Weight → ℕ → Weight
  pub builder : Builder
  pub base_block : Weight → Builder → Builder
  pub for_all : (WeightsPerClass Weight → WeightsPerClass Weight) → Builder → Builder
  pub for_class :
      DispatchClass → (WeightsPerClass Weight → WeightsPerClass Weight) → Builder → Builder
  pub avg_block_initialization : Perbill → Builder → Builder
  pub build_or_panic : Builder → Option BlockWeights

module _ {Perbill Weight Builder BlockWeights : Type 0}
    (sys : BlockLimits Perbill Weight Builder BlockWeights) where
  abbrev pub average_on_initialize_ratio : Perbill
  average_on_initialize_ratio = sys.from_percent 5

  abbrev pub normal_dispatch_ratio : Perbill
  normal_dispatch_ratio = sys.from_percent 75

  -- The cast to u64 keeps the low 64 bits.
  abbrev pub maximum_block_weight : Weight
  maximum_block_weight = sys.from_parts (sys.ref_time_per_second / 2) (sys.max_pov_size % 2 ^ 64)

  -- The closures, and the calls of the builder.
  abbrev pub all_weights : WeightsPerClass Weight → WeightsPerClass Weight
  all_weights weights = record weights { base_extrinsic = sys.extrinsic_base_weight }

  abbrev pub normal_weights : WeightsPerClass Weight → WeightsPerClass Weight
  normal_weights weights = record weights {
    max_total = some (sys.portion normal_dispatch_ratio maximum_block_weight);
  }

  abbrev pub operational_weights : WeightsPerClass Weight → WeightsPerClass Weight
  operational_weights weights = record weights {
    max_total = some maximum_block_weight;
    reserved =
        some
          (sys.minus maximum_block_weight (sys.portion normal_dispatch_ratio maximum_block_weight));
  }

  abbrev pub runtime_block_weights : Option BlockWeights
  runtime_block_weights = sys.build_or_panic (
      sys.avg_block_initialization average_on_initialize_ratio (
        sys.for_class DispatchClass.operational operational_weights (
          sys.for_class DispatchClass.normal normal_weights
            (sys.for_all all_weights (sys.base_block sys.block_execution_weight sys.builder)))))

  abbrev pub reserved_xcmp_weight : Weight
  reserved_xcmp_weight = sys.saturating_div maximum_block_weight 4

  abbrev pub reserved_dmp_weight : Weight
  reserved_dmp_weight = sys.saturating_div maximum_block_weight 4

-- A collator is kicked after one session, and the timestamp's period is half of a slot.
periods :
    (kick_threshold ≡ session_length)
    × (session_length ≡ period)
    × (2 * minimum_period ≡ slot_duration)
periods = (refl, refl, refl)
