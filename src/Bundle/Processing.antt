-- ===== src/Bundle/Processing.antt =====
-- bundle/bundle.helper.ts and bundle/processor: sending a bundle, and what follows when the entry point
-- contract refuses it. What the network calls come to is data.
pub mod Crash
pub mod Soundness
use transeptor_bundler.Prelude.{
  ℕ, String, Bool, true, false, ◌==◌, List, [], ◌∷◌, at, leb, Option, none, some, if◌then◌else◌,
}
use transeptor_bundler.Prelude.Text.{starts_with}
use transeptor_bundler.Types.{UserOperation, pending}
use transeptor_bundler.State.{State}
use transeptor_bundler.Reputation.{decrement, update_seen_status, crashed_handle_ops}
use transeptor_bundler.Reputation.Checks.{StakeConfig, DepositInfo, get_stake_status}
use transeptor_bundler.Mempool.Manager.{
  by_op, remove_user_op, remove_user_ops_for_banned_addr, update_entry_status,
}

-- selectBeneficiary, for the balance of the signer
pub select_beneficiary : String → ℕ → String → ℕ → String
select_beneficiary signer balance beneficiary min_signer_balance =
    if leb balance min_signer_balance then signer else beneficiary

module _ (config : StakeConfig) (get_deposit_info : String → DepositInfo) where
  abbrev is_address_staked : String → Bool
  is_address_staked address = (get_stake_status config get_deposit_info address).is_staked

  abbrev is_factory_staked : Option String → Bool
  is_factory_staked none = false
  is_factory_staked (some factory) = is_address_staked factory

  unfoldable pub find_entity_to_blame : String → UserOperation → Option String
  unfolding get_stake_status
  find_entity_to_blame reason op =
      if starts_with "AA3" reason
      then if is_address_staked op.sender then some op.sender else op.paymaster
      else if starts_with "AA2" reason
      then if is_factory_staked op.factory then op.factory else some op.sender
      else if starts_with "AA1" reason
      then op.factory
      else none

-- The sightings of the failed operation are taken back and the entity is banned.
unfoldable pub ban_entity : String → UserOperation → State → State
ban_entity address op s = crashed_handle_ops (some address) (
    remove_user_ops_for_banned_addr address (
      update_seen_status op.factory decrement (
        update_seen_status op.paymaster decrement
          (update_seen_status (some op.sender) decrement s))))

abbrev pub ban_if : Option String → UserOperation → State → State
ban_if none op s = s
ban_if (some address) op s = if address == "" then s else ban_entity address op s

-- `afterHook` for a crash of handleOps, and for another failure.
unfoldable pub after_crash : Option String → UserOperation → State → State
after_crash address_to_ban failed_op s =
    (remove_user_op (by_op failed_op) (ban_if address_to_ban failed_op s)).1

unfoldable pub after_failure : List UserOperation → State → State
after_failure [] s = s
after_failure (op ∷ ops) s = after_failure ops (update_entry_status (by_op op) pending s)

-- How the attempt to send ended: with a transaction, with a FailedOp error (its index and reason), with
-- an error that `checkFatal` throws again, or with any other error.
pub data SendOutcome : Type 0 where
  sent : String → List String → SendOutcome
  failed_op : ℕ → String → SendOutcome
  fatal other_error : SendOutcome

pub data SendReturn : Type 0 where
  sent_bundle : String → List String → SendReturn
  not_sent raised : SendReturn

module _ (config : StakeConfig) (get_deposit_info : String → DepositInfo) where
  -- userOps[opIndex]; there is nothing to blame for an index out of range, and the access raises.
  unfoldable pub crash : Option UserOperation → String → State → SendReturn × State
  crash none reason s = (raised, s)
  crash (some op) reason s =
      (not_sent, after_crash (find_entity_to_blame config get_deposit_info reason op) op s)

  unfoldable pub send_bundle : SendOutcome → List UserOperation → State → SendReturn × State
  unfolding crash
  send_bundle (sent hash hashes) ops s = (sent_bundle hash hashes, s)
  send_bundle (failed_op index reason) ops s = crash (at index ops) reason s
  send_bundle fatal ops s = (raised, s)
  send_bundle other_error ops s = (not_sent, after_failure ops s)
