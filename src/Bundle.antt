-- ===== src/Bundle.antt =====
-- bundle/builder/builder.helpers.ts: the tests that decide whether an operation goes into the bundle,
-- and what it takes of the shared budgets. The loop over the entries is in Bundle/Building.antt.
pub mod Budgets
pub mod Building
pub mod Processing
pub mod Creating
pub mod Manager
use transeptor_bundler.Prelude.{
  ℕ, ◌+◌, String, Bool, true, false, ◌&&◌, ◌||◌, not, ◌==◌, List, [], ◌∷◌, ◌++◌, any, includes, ltb,
  leb, Option, none, some, if◌then◌else◌,
}
use transeptor_bundler.Prelude.Int.{ℤ, pos, negsuc, ◌-ℤ◌, ltb_ℤ}
use transeptor_bundler.Prelude.Dict.{Dict, get, put}
use transeptor_bundler.Prelude.Text.{to_lower_case}
use transeptor_bundler.Types.{
  Eip7702Authorization, UserOperation, ReputationStatus, ok, throttled, banned, StorageMap,
  ValidateUserOpResult,
}
use transeptor_bundler.State.{or_else}

abbrev pub throttled_entity_bundle_count : ℕ
throttled_entity_bundle_count = 4

pub increment_count : Dict ℕ → String → Dict ℕ
increment_count counts key = put key (or_else (get key counts) 0 + 1) counts

abbrev pub is_throttled : ReputationStatus → Bool
is_throttled ok = false
is_throttled throttled = true
is_throttled banned = false

abbrev pub is_banned : ReputationStatus → Bool
is_banned ok = false
is_banned throttled = false
is_banned banned = true

unfoldable pub is_entity_throttled : Option String → ReputationStatus → Dict ℕ → ℕ → Bool
is_entity_throttled none status counts limit = false
is_entity_throttled (some entity) status counts limit =
    not (entity == "") && (is_throttled status && leb limit (or_else (get entity counts) 0))

-- Some address of the storage map is another known sender.
unfoldable pub accesses_other_senders_storage : StorageMap → String → List String → Bool
accesses_other_senders_storage storage_map sender known_senders =
    any
      (λ b.
        not (to_lower_case b.0 == to_lower_case sender)
        && includes known_senders (to_lower_case b.0))
      storage_map

abbrev pub gas_of : ValidateUserOpResult → UserOperation → ℕ
gas_of result op = result.return_info.pre_op_gas + op.call_gas_limit

unfoldable pub exceed_bundle_gas_limit : ValidateUserOpResult → UserOperation → ℕ → ℕ → Bool
exceed_bundle_gas_limit result op total_gas max_bundle_gas =
    ltb max_bundle_gas (total_gas + gas_of result op)

-- A comparison with a deposit that is not there is false.
abbrev pub falls_short : Option ℤ → ℕ → Bool
falls_short none prefund = false
falls_short (some deposit) prefund = ltb_ℤ deposit (pos prefund)

unfoldable pub paymaster_has_insufficient_deposit :
    Option String → ValidateUserOpResult → Dict ℤ → Bool
paymaster_has_insufficient_deposit none result deposits = false
paymaster_has_insufficient_deposit (some paymaster) result deposits =
    not (paymaster == "") && falls_short (get paymaster deposits) result.return_info.prefund

pub data Reason : Type 0 where
  is_banned_entity is_throttled_entity duplicate_sender access_other_sender_storage : Reason
  exceeds_bundler_gas_limit paymaster_insufficient_deposit : Reason

pub data Verdict : Type 0 where
  include : Verdict
  exclude : Reason → Verdict

-- What the operations of the bundle have used up so far.
pub record Used : Type 0 where
  pub total_gas : ℕ
  pub paymaster_deposit : Dict ℤ
  pub staked_entity_count : Dict ℕ
  pub senders : List String

unfoldable pub should_include_in_bundle :
    UserOperation
    → ReputationStatus
    → ReputationStatus
    → ValidateUserOpResult
    → Used
    → ℕ
    → List String
    → Verdict
should_include_in_bundle op paymaster_status factory_status result used max_bundle_gas
      known_senders =
    if is_banned paymaster_status || is_banned factory_status
    then exclude is_banned_entity
    else if is_entity_throttled op.paymaster paymaster_status used.staked_entity_count
        throttled_entity_bundle_count
    then exclude is_throttled_entity
    else if is_entity_throttled op.factory factory_status used.staked_entity_count
        throttled_entity_bundle_count
    then exclude is_throttled_entity
    else if includes used.senders op.sender
    then exclude duplicate_sender
    else if accesses_other_senders_storage result.storage_map op.sender known_senders
    then exclude access_other_sender_storage
    else if exceed_bundle_gas_limit result op used.total_gas max_bundle_gas
    then exclude exceeds_bundler_gas_limit
    else if paymaster_has_insufficient_deposit op.paymaster result used.paymaster_deposit
    then exclude paymaster_insufficient_deposit
    else include

-- newPaymasterDeposit[paymaster] -= prefund; the loop has put the deposit there.
pub charge : Option ℤ → String → ℕ → Dict ℤ → Dict ℤ
charge none paymaster prefund deposits = deposits
charge (some deposit) paymaster prefund deposits = put paymaster (deposit -ℤ pos prefund) deposits

abbrev pub charged : Option String → ℕ → Dict ℤ → Dict ℤ
charged none prefund deposits = deposits
charged (some paymaster) prefund deposits =
    if paymaster == "" then deposits else charge (get paymaster deposits) paymaster prefund deposits

-- newStakedEntityCount = incrementCount(stakedEntityCount, entity), over what was counted before
abbrev pub counted : Option String → Dict ℕ → Dict ℕ → Dict ℕ
counted none old new = new
counted (some entity) old new = if entity == "" then new else increment_count old entity

pub update_entity_stake_count_and_deposit :
    UserOperation → ValidateUserOpResult → Dict ℕ → Dict ℤ → Dict ℕ × Dict ℤ
unfolding charge
update_entity_stake_count_and_deposit op result counts deposits = (
  counted op.factory counts (counted op.paymaster counts counts),
  charged op.paymaster result.return_info.prefund deposits,
)

-- utils/eip-7702.utils.ts
abbrev pub get_authorization_list : UserOperation → List Eip7702Authorization
get_authorization_list op = elim op.eip7702_auth [ none ↦ [] | some auth ↦ auth ∷ [] ]

-- `signer_of` recovers the signer of an authorization from its signature.
module _ (signer_of : Eip7702Authorization → String) where
  unfoldable pub find_by_signer : String → List Eip7702Authorization → Option Eip7702Authorization
  find_by_signer signer [] = none
  find_by_signer signer (it ∷ auth_list) =
      if signer_of it == signer then some it else find_by_signer signer auth_list

  unfoldable pub merge_authorizations :
      List Eip7702Authorization → List Eip7702Authorization → Bool × List Eip7702Authorization
  merge_authorizations [] auth_list = (true, auth_list)
  merge_authorizations (auth ∷ auths) auth_list =
      let pushed = merge_authorizations auths (auth_list ++ auth ∷ []) in
      let merged = merge_authorizations auths auth_list in
      elim (find_by_signer (signer_of auth) auth_list) [
        | none ↦ pushed
        | some existing ↦
            if to_lower_case existing.address == to_lower_case auth.address
            then merged
            else (false, auth_list)
      ]

  unfoldable pub merge_eip7702_authorizations :
      UserOperation → List Eip7702Authorization → Bool × List Eip7702Authorization
  unfolding merge_authorizations
  merge_eip7702_authorizations op auth_list =
      merge_authorizations (get_authorization_list op) auth_list
