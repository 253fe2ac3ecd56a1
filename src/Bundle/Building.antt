-- ===== src/Bundle/Building.antt =====
-- bundle/builder/bundle-builder.ts: the loop that builds a bundle from the entries that the pool hands
-- out. The balance of a paymaster, the second validation of an operation and the recovery of a signer
-- are parameters.
pub mod Invariants
pub mod Conflicts
pub mod Fates
pub mod Splitting
use transeptor_bundler.Prelude.{
  ℕ, zero, suc, ◌+◌, String, Bool, true, false, ◌&&◌, ◌||◌, not, ◌==◌, List, [], ◌∷◌, ◌++◌,
  includes, Option, none, some, if◌then◌else◌,
}
use transeptor_bundler.Prelude.Int.{ℤ, pos, negsuc}
use transeptor_bundler.Prelude.Dict.{Dict, get, put}
use transeptor_bundler.Types.{
  Eip7702Authorization, UserOperation, ReferencedCodeHashes, MempoolEntry, StorageMap,
  ValidateUserOpResult,
}
use transeptor_bundler.Outcome.{Either, left, right}
use transeptor_bundler.State.{State}
use transeptor_bundler.Reputation.{get_status}
use transeptor_bundler.UserOps.{merge_storage_map}
use transeptor_bundler.Bundle.{
  Used, Reason, is_banned_entity, is_throttled_entity, duplicate_sender,
  access_other_sender_storage, exceeds_bundler_gas_limit, paymaster_insufficient_deposit, Verdict,
  include, exclude, gas_of, should_include_in_bundle, update_entity_stake_count_and_deposit,
  merge_eip7702_authorizations,
}

pub data RemoveReason : Type 0 where
  failed_2nd_validation banned : RemoveReason

pub record RemoveUserOpDetails (Failure : Type 0) : Type 0 where
  pub user_op_hash : String
  pub user_op : UserOperation
  pub reason : RemoveReason
  pub err : Option Failure

pub record BundleBuilderResult (Failure : Type 0) : Type 0 where
  pub bundle : List UserOperation
  pub storage_map : StorageMap
  pub eip7702_tuples : List Eip7702Authorization
  pub not_included : List String
  pub marked_to_remove : List (RemoveUserOpDetails Failure)
  pub used : Used

abbrev pub initial : {Failure : Type 0} → BundleBuilderResult Failure
initial = record {
  bundle = [];
  storage_map = [];
  eip7702_tuples = [];
  not_included = [];
  marked_to_remove = [];
  used = record { total_gas = 0; paymaster_deposit = []; staked_entity_count = []; senders = [] };
}

-- What the builder is given: the failure of a validation is any value.
pub record BuilderConfig (Failure : Type 0) : Type 0 where
  pub max_bundle_gas : ℕ
  pub balance_of : String → ℕ
  pub validate : UserOperation → ReferencedCodeHashes → Either Failure ValidateUserOpResult
  pub signer_of : Eip7702Authorization → String

-- !acc.paymasterDeposit[paymaster]: not there, or zero
abbrev pub is_unset : Option ℤ → Bool
is_unset none = true
is_unset (some (pos zero)) = true
is_unset (some (pos (suc n))) = false
is_unset (some (negsuc n)) = false

module _ {Failure : Type 0} (config : BuilderConfig Failure) where
  unfoldable pub read_deposit : Option String → Used → Used
  read_deposit none used = used
  read_deposit (some paymaster) used =
      if not (paymaster == "") && is_unset (get paymaster used.paymaster_deposit)
      then record used {
        paymaster_deposit =
            put paymaster (pos (config.balance_of paymaster)) used.paymaster_deposit;
      }
      else used

  -- After the deposits and the storage are merged: the operation joins the bundle if its
  -- authorization does not conflict.
  join :
      Bool × List Eip7702Authorization
      → UserOperation
      → ValidateUserOpResult
      → BundleBuilderResult Failure
      → BundleBuilderResult Failure
  join (false, tuples) op result acc = record acc { eip7702_tuples = tuples }
  join (true, tuples) op result acc = record acc {
    eip7702_tuples = tuples;
    bundle = acc.bundle ++ op ∷ [];
    used = record acc.used {
      total_gas = acc.used.total_gas + gas_of result op;
      senders =
          if includes acc.used.senders op.sender
          then acc.used.senders
          else acc.used.senders ++ op.sender ∷ [];
    };
  }

  take_in :
      MempoolEntry
      → ValidateUserOpResult
      → BundleBuilderResult Failure
      → BundleBuilderResult Failure
  unfolding join
  take_in entry result acc =
      let (counts, deposits) =
        update_entity_stake_count_and_deposit entry.user_op result acc.used.staked_entity_count
          acc.used.paymaster_deposit in
      join (merge_eip7702_authorizations config.signer_of entry.user_op acc.eip7702_tuples)
        entry.user_op result
        (record acc {
          storage_map = merge_storage_map acc.storage_map result.storage_map;
          used = record acc.used { staked_entity_count = counts; paymaster_deposit = deposits };
        })

  abbrev mark_to_remove :
      MempoolEntry
      → RemoveReason
      → Option Failure
      → BundleBuilderResult Failure
      → BundleBuilderResult Failure
  mark_to_remove entry reason err acc = record acc {
    marked_to_remove =
        acc.marked_to_remove
        ++ record {
          user_op_hash = entry.user_op_hash;
          user_op = entry.user_op;
          reason = reason;
          err = err;
        }
          ∷ [];
  }

  abbrev pub put_back : MempoolEntry → BundleBuilderResult Failure → BundleBuilderResult Failure
  put_back entry acc = record acc { not_included = acc.not_included ++ entry.user_op_hash ∷ [] }

  decide :
      Verdict
      → MempoolEntry
      → ValidateUserOpResult
      → BundleBuilderResult Failure
      → BundleBuilderResult Failure
  unfolding take_in
  decide include entry result acc = take_in entry result acc
  decide (exclude is_banned_entity) entry result acc =
      mark_to_remove entry RemoveReason.banned none acc
  decide (exclude is_throttled_entity) entry result acc = put_back entry acc
  decide (exclude duplicate_sender) entry result acc = put_back entry acc
  decide (exclude access_other_sender_storage) entry result acc = put_back entry acc
  decide (exclude exceeds_bundler_gas_limit) entry result acc = put_back entry acc
  decide (exclude paymaster_insufficient_deposit) entry result acc = put_back entry acc

  module _ (known_senders : List String) (s : State) where
    consider :
        Either Failure ValidateUserOpResult
        → MempoolEntry
        → BundleBuilderResult Failure
        → BundleBuilderResult Failure
    unfolding decide
    consider (left failure) entry acc =
        mark_to_remove entry RemoveReason.failed_2nd_validation (some failure) acc
    consider (right result) entry acc =
        decide
          (should_include_in_bundle entry.user_op (get_status entry.user_op.paymaster s)
            (get_status entry.user_op.factory s) result acc.used config.max_bundle_gas
            known_senders)
          entry result acc

    build_step : MempoolEntry → BundleBuilderResult Failure → BundleBuilderResult Failure
    unfolding consider
    build_step entry acc =
        consider (config.validate entry.user_op entry.referenced_contracts) entry
          (record acc { used = read_deposit entry.user_op.paymaster acc.used })

    pub build_bundle : List MempoolEntry → BundleBuilderResult Failure → BundleBuilderResult Failure
    unfolding build_step
    build_bundle [] acc = acc
    build_bundle (entry ∷ entries) acc = build_bundle entries (build_step entry acc)
