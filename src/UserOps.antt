-- ===== src/UserOps.antt =====
-- utils/user-op.utils.ts: the cost of a user operation, and the merge of storage maps.
pub mod Storage
pub mod Packing
use transeptor_bundler.Prelude.{ℕ, ◌+◌, ◌*◌, String, List, [], ◌∷◌, Option, none, some}
use transeptor_bundler.Prelude.Dict.{get, put}
use transeptor_bundler.Types.{UserOperation, SlotMap, StorageEntry, root, slots, StorageMap}

-- value ?? BigInt(0)
abbrev pub or_zero : Option ℕ → ℕ
or_zero none = 0
or_zero (some n) = n

unfoldable pub get_user_op_max_cost : UserOperation → ℕ
get_user_op_max_cost op =
    (op.pre_verification_gas
      + op.verification_gas_limit
      + op.call_gas_limit
      + or_zero op.paymaster_verification_gas_limit
      + or_zero op.paymaster_post_op_gas_limit)
    * op.max_fee_per_gas

-- slots[slot] = val, for every slot
pub merge_slots : SlotMap → SlotMap → SlotMap
merge_slots merged [] = merged
merge_slots merged ((slot, val) ∷ rest) = merge_slots (put slot val merged) rest

-- What stands under an address once the entry of a validation is merged into what stood there.
pub merge_entry : Option StorageEntry → StorageEntry → StorageEntry
unfolding merge_slots
merge_entry old (root r) = root r
merge_entry none (slots new) = slots (merge_slots [] new)
merge_entry (some (root r)) (slots new) = root r
merge_entry (some (slots old)) (slots new) = slots (merge_slots old new)

unfoldable pub merge_storage_map : StorageMap → StorageMap → StorageMap
unfolding merge_entry
merge_storage_map merged [] = merged
merge_storage_map merged ((addr, entry) ∷ rest) =
    merge_storage_map (put addr (merge_entry (get addr merged) entry) merged) rest
