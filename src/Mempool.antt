-- ===== src/Mempool.antt =====
-- mempool/mempool-helper.ts: the pool's helpers. The manager that uses them is Mempool/Manager.antt.
pub mod Slots
pub mod Entries
pub mod Roles
pub mod Fees
pub mod Admission
pub mod Manager
use mathlib.Core.Option
use transeptor_bundler.Prelude.{
  ℕ, ◌+◌, String, Bool, true, false, ◌&&◌, ◌||◌, not, ◌==◌, List, [], ◌∷◌, ◌++◌, map, filter,
  includes, eqb, Option, none, some, if◌then◌else◌,
}
use transeptor_bundler.Prelude.Dict.{Dict, get, put, remove, merge, values}
use transeptor_bundler.Prelude.Double.{at_least_times_1_1}
use transeptor_bundler.Prelude.Text.{to_lower_case, lower_or_empty}
use transeptor_bundler.Types.{UserOperation, StakeInfo, MempoolEntry, StandardPool, EntryCount}
use transeptor_bundler.Errors.{
  RpcError, sender_is_entity, paymaster_is_sender, factory_is_sender, priority_fee_too_low,
  max_fee_too_low,
}
use transeptor_bundler.Outcome.{Either, left, right}
use transeptor_bundler.State.{Partial, empty, or_else}

-- types/mempool.types.ts
pub record MempoolEntryMetadata : Type 0 where
  pub sender_info : StakeInfo
  pub paymaster_info : Option StakeInfo
  pub factory_info : Option StakeInfo
  pub aggregator_info : Option StakeInfo
  pub old_entry : Option MempoolEntry

abbrev pub MempoolEntryWithMetadata : Type 0
MempoolEntryWithMetadata = MempoolEntry × MempoolEntryMetadata

unfoldable pub senders_of : List MempoolEntry → List String
senders_of [] = []
senders_of (e ∷ es) = to_lower_case e.user_op.sender ∷ senders_of es

unfoldable pub get_known_senders : StandardPool → List String
unfolding senders_of
get_known_senders pool = senders_of (values pool)

-- userOp.paymaster ? userOp.paymaster : '0x'
abbrev or_0x : Option String → String
or_0x none = "0x"
or_0x (some a) = if a == "" then "0x" else a

unfoldable pub entities_of : List MempoolEntry → List String
entities_of [] = []
entities_of (e ∷ es) = or_0x e.user_op.paymaster ∷ or_0x e.user_op.factory ∷ entities_of es

unfoldable pub get_known_entities : StandardPool → List String
unfolding entities_of
get_known_entities pool =
    map to_lower_case (filter (λ a. not (a == "0x")) (entities_of (values pool)))

unfoldable pub check_multiple_roles_violation :
    MempoolEntryWithMetadata → List String → List String → Either RpcError MempoolEntryWithMetadata
check_multiple_roles_violation (entry, metadata) known_entities known_senders =
    let op = entry.user_op in
    if includes known_entities (to_lower_case op.sender)
    then left (sender_is_entity op.sender)
    else if includes known_senders (lower_or_empty op.paymaster)
    then left (paymaster_is_sender (or_else op.paymaster ""))
    else if includes known_senders (lower_or_empty op.factory)
    then left (factory_is_sender (or_else op.factory ""))
    else right (entry, metadata)

-- The two fee tests of `checkReplaceUserOp`, against the entry that is replaced.
unfoldable pub check_replace_fees :
    MempoolEntryWithMetadata → MempoolEntry → Either RpcError MempoolEntryWithMetadata
check_replace_fees (entry, metadata) old =
    let op = entry.user_op in
    let old_op = old.user_op in
    if not (at_least_times_1_1 op.max_priority_fee_per_gas old_op.max_priority_fee_per_gas)
    then left (priority_fee_too_low old_op.max_priority_fee_per_gas op.max_priority_fee_per_gas)
    else if not (at_least_times_1_1 op.max_fee_per_gas old_op.max_fee_per_gas)
    then left (max_fee_too_low old_op.max_fee_per_gas op.max_fee_per_gas)
    else right (entry, metadata)

unfoldable pub check_replace_user_op :
    MempoolEntryWithMetadata → Either RpcError MempoolEntryWithMetadata
unfolding check_replace_fees
check_replace_user_op (entry, metadata) = elim metadata.old_entry [
  | none ↦ right (entry, metadata)
  | some old ↦ check_replace_fees (entry, metadata) old
]

-- Array.prototype.find over the entries, for a sender in lower case
unfoldable pub find_slot : String → ℕ → List MempoolEntry → Option MempoolEntry
find_slot sender nonce [] = none
find_slot sender nonce (e ∷ es) =
    if to_lower_case e.user_op.sender == sender && eqb e.user_op.nonce nonce
    then some e
    else find_slot sender nonce es

unfoldable pub find_by_sender_nonce : String → ℕ → StandardPool → Option MempoolEntry
find_by_sender_nonce sender nonce pool = find_slot (to_lower_case sender) nonce (values pool)

abbrev count_of : String → EntryCount → ℕ
count_of a counts = or_else (get a counts) 0

-- A paymaster or a factory: counted if it is there and not '0x'.
count_entity : Option String → EntryCount → EntryCount → EntryCount
count_entity none counts acc = acc
count_entity (some a) counts acc =
    let addr = to_lower_case a in
    if a == "" || addr == "0x" then acc else put addr (count_of addr counts + 1) acc

count_new : UserOperation → EntryCount → EntryCount
unfolding count_entity
count_new op counts =
    let sender = to_lower_case op.sender in
    merge counts (
      count_entity op.factory counts
        (count_entity op.paymaster counts ((sender, count_of sender counts + 1) ∷ [])))

pub update_pool : MempoolEntry → Option MempoolEntry → StandardPool → StandardPool
update_pool entry none pool = put entry.user_op_hash entry pool
update_pool entry (some old) pool = put entry.user_op_hash entry (remove old.user_op_hash pool)

pub update_count : MempoolEntry → Option MempoolEntry → EntryCount → EntryCount
unfolding count_new
update_count entry none counts = count_new entry.user_op counts
update_count entry (some old) counts = counts

pub do_update_mempool_state : MempoolEntryWithMetadata → StandardPool → EntryCount → Partial
unfolding update_pool update_count
do_update_mempool_state (entry, metadata) pool counts = record empty {
  standard_pool = some (update_pool entry metadata.old_entry pool);
  mempool_entry_count = some (update_count entry metadata.old_entry counts);
}
