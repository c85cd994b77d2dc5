-- ===== src/Runtime/Inherents.antt =====
-- The inherents of a block: what the node's author and its import queue provide (node/src/service.rs)
-- and what the runtime checks (runtime/src/lib.rs). Clocks, slots and proofs are parameters.
use Prim.Native.String.{String}
use gas_leap.Base.{ℕ, ◌≡◌, ◌⊎◌, refl, inl, inr, Option, none, some, Result, ok, err, arith}
use gas_leap.Base.Panics.{◌>>=◌}

-- `Slot` with `from_timestamp_and_slot_duration` of sp_consensus_aura.
module _ {Slot : Type 0} (from_timestamp_and_slot_duration : ℕ → ℕ → Slot) where
  -- `create_inherent_data_providers` of `build_import_queue`: the slot and the timestamp.
  abbrev pub import_providers : (system_time slot_duration : ℕ) → Slot × ℕ
  import_providers system_time slot_duration =
      let timestamp = system_time in
      let slot = from_timestamp_and_slot_duration timestamp slot_duration in (slot, timestamp)

  -- The same of `build_consensus`. `parachain_inherent` is what `ParachainInherentData::create_at`
  -- answers.
  abbrev pub authoring_providers :
      {Inherent : Type 0}
      → Option Inherent
      → (system_time slot_duration : ℕ) → Result String (Slot × ℕ × Inherent)
  authoring_providers parachain_inherent system_time slot_duration =
      let timestamp = system_time in
      let slot = from_timestamp_and_slot_duration timestamp slot_duration in
      elim parachain_inherent [
        | none ↦ err "Failed to create parachain inherent"
        | some inherent ↦ ok (slot, timestamp, inherent)
      ]

  -- An author who gets a parachain inherent provides the slot and the timestamp that the import
  -- queue provides at the same time; one who gets none fails.
  authoring-import :
      {Inherent : Type 0} (parachain_inherent : Option Inherent) (system_time slot_duration : ℕ)
      → ((parachain_inherent ≡ none)
          × (authoring_providers parachain_inherent system_time slot_duration
              ≡ err "Failed to create parachain inherent"))
        ⊎ ((inherent : Inherent) × (parachain_inherent ≡ some inherent)
            × (authoring_providers parachain_inherent system_time slot_duration ≡ (
                let (slot, timestamp) = import_providers system_time slot_duration in
                ok (slot, timestamp, inherent))))
  authoring-import none system_time slot_duration = inl (refl, refl)
  authoring-import (some inherent) system_time slot_duration = inr (inherent, refl, refl)

-- What cumulus gives: the slot in a proof of the relay chain's state, the inherent data of a slot and
-- a duration in seconds, and the check of a block.
pub record Cumulus (Proof Slot Data Block Outcome : Type 0) : Type 0 where
  pub read_slot : Proof → Option Slot
  pub create_inherent_data : Slot → ℕ → Option Data
  pub check_extrinsics : Data → Block → Outcome

module _ {Proof Slot Data Block Outcome : Type 0}
    (cumulus : Cumulus Proof Slot Data Block Outcome) where
  -- `CheckInherents::check_inherents`; each `expect` panics on nothing.
  abbrev pub check_inherents : Block → Proof → Option Outcome
  check_inherents block relay_state_proof = do
    relay_chain_slot ← cumulus.read_slot relay_state_proof
    inherent_data ← cumulus.create_inherent_data relay_chain_slot 6
    some (cumulus.check_extrinsics inherent_data block)

  -- The check panics only where the proof has no slot, or no data can be created for it.
  check_inherents-total :
      (block : Block) (proof : Proof) (slot : Slot) (inherent_data : Data)
      → cumulus.read_slot proof ≡ some slot
      → cumulus.create_inherent_data slot 6 ≡ some inherent_data
      → check_inherents block proof ≡ some (cumulus.check_extrinsics inherent_data block)
  check_inherents-total block proof slot inherent_data s d = ground arith
