-- ===== src/Mempool/Fees.antt =====
-- `checkReplaceUserOp`: what a replacement must pay.
use transeptor_bundler.Prelude.{◌*◌, ◌≤◌, ◌<◌, ◌≡◌, some, arith}
use transeptor_bundler.Prelude.Double.{at_least_times_1_1_sound, at_least_times_1_1_complete}
use transeptor_bundler.Types.{UserOperation, MempoolEntry}
use transeptor_bundler.Outcome.{right}
use transeptor_bundler.Mempool.{MempoolEntryMetadata, check_replace_user_op}

-- Fees below 2 ^ 48 wei per gas, where the comparison with the double 1.1 is exact.
pub record SmallFees (op : UserOperation) : Type 0 where
  pub priority : op.max_priority_fee_per_gas < 0x1_0000_0000_0000
  pub total : op.max_fee_per_gas < 0x1_0000_0000_0000

module _ (entry old : MempoolEntry) (metadata : MempoolEntryMetadata)
    (found : metadata.old_entry ≡ some old) where
  -- If both fees of the entry that is replaced are below 2 ^ 48, an accepted replacement pays at
  -- least a tenth more in both.
  pub check_replace_user_op_sound :
      SmallFees old.user_op
      → check_replace_user_op (entry, metadata) ≡ right (entry, metadata)
      → (11 * old.user_op.max_priority_fee_per_gas ≤ 10 * entry.user_op.max_priority_fee_per_gas)
        × (11 * old.user_op.max_fee_per_gas ≤ 10 * entry.user_op.max_fee_per_gas)
  unfolding check_replace_user_op
  check_replace_user_op_sound small accepted = ground (
    arith,
    at_least_times_1_1_sound entry.user_op.max_priority_fee_per_gas
        old.user_op.max_priority_fee_per_gas,
    at_least_times_1_1_sound entry.user_op.max_fee_per_gas old.user_op.max_fee_per_gas,
  )

  -- A replacement whose fees are below 2 ^ 48 and both more than a tenth above those of the entry
  -- that it replaces is accepted.
  pub check_replace_user_op_complete :
      SmallFees entry.user_op
      → 11 * old.user_op.max_priority_fee_per_gas < 10 * entry.user_op.max_priority_fee_per_gas
      → 11 * old.user_op.max_fee_per_gas < 10 * entry.user_op.max_fee_per_gas
      → check_replace_user_op (entry, metadata) ≡ right (entry, metadata)
  unfolding check_replace_user_op
  check_replace_user_op_complete small p q = ground (
    arith,
    at_least_times_1_1_complete entry.user_op.max_priority_fee_per_gas
        old.user_op.max_priority_fee_per_gas,
    at_least_times_1_1_complete entry.user_op.max_fee_per_gas old.user_op.max_fee_per_gas,
  )
