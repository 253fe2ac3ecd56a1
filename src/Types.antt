-- ===== src/Types.antt =====
-- The data that the components share (src/types): user operations, stakes, mempool entries,
-- reputation entries, bundle transactions. A `BigNumberish` is the number that it stands for, and
-- `BytesLike` is a text; an optional field (`field?: T`) is an `Option`.
use transeptor_bundler.Prelude.{ℕ, String, Bool, List, Option}
use transeptor_bundler.Prelude.Dict.{Dict}

-- types/eip-7702.types.ts
pub record Eip7702Authorization : Type 0 where
  pub chain_id : ℕ
  pub address : String
  pub nonce : ℕ
  pub y_parity : ℕ
  pub r : ℕ
  pub s : ℕ

-- types/userop.types.ts
pub record UserOperation : Type 0 where
  pub sender : String
  pub nonce : ℕ
  pub factory : Option String
  pub factory_data : Option String
  pub call_data : String
  pub call_gas_limit : ℕ
  pub verification_gas_limit : ℕ
  pub pre_verification_gas : ℕ
  pub max_fee_per_gas : ℕ
  pub max_priority_fee_per_gas : ℕ
  pub paymaster : Option String
  pub paymaster_verification_gas_limit : Option ℕ
  pub paymaster_post_op_gas_limit : Option ℕ
  pub paymaster_data : Option String
  pub signature : String
  pub eip7702_auth : Option Eip7702Authorization

-- types/validation.types.ts
pub record StakeInfo : Type 0 where
  pub addr : String
  pub stake : ℕ
  pub unstake_delay_sec : ℕ

pub record ReferencedCodeHashes : Type 0 where
  pub addresses : List String
  pub hash : String

-- types/state.types.ts
pub data EntryStatus : Type 0 where
  bundling pending bundled failed : EntryStatus

pub record MempoolEntry : Type 0 where
  pub user_op : UserOperation
  pub user_op_hash : String
  pub prefund : ℕ
  pub referenced_contracts : ReferencedCodeHashes
  pub status : EntryStatus
  pub aggregator : Option String

abbrev pub StandardPool : Type 0
StandardPool = Dict MempoolEntry

abbrev pub EntryCount : Type 0
EntryCount = Dict ℕ

-- types/reputation.types.ts
pub data ReputationStatus : Type 0 where
  ok throttled banned : ReputationStatus

pub record ReputationEntry : Type 0 where
  pub address : String
  pub ops_seen : ℕ
  pub ops_included : ℕ
  pub status : Option ReputationStatus

abbrev pub ReputationEntries : Type 0
ReputationEntries = Dict ReputationEntry

-- types/bundle.types.ts
pub data BundleTxStatus : Type 0 where
  pending confirmed failed : BundleTxStatus

pub record PendingTxDetails : Type 0 where
  pub tx_hash : String
  pub signer_index : ℕ
  pub status : BundleTxStatus

abbrev pub BundleTxs : Type 0
BundleTxs = Dict PendingTxDetails

-- types/validation.types.ts: for every address that a validation touches either the root of its
-- storage or the slots with their values.
abbrev pub SlotMap : Type 0
SlotMap = Dict String

pub data StorageEntry : Type 0 where
  root : String → StorageEntry
  slots : SlotMap → StorageEntry

abbrev pub StorageMap : Type 0
StorageMap = Dict StorageEntry

pub record ReturnInfo : Type 0 where
  pub pre_op_gas : ℕ
  pub prefund : ℕ
  pub sig_failed : Bool
  pub valid_after : ℕ
  pub valid_until : ℕ

pub record ValidateUserOpResult : Type 0 where
  pub return_info : ReturnInfo
  pub sender_info : StakeInfo
  pub factory_info : Option StakeInfo
  pub paymaster_info : Option StakeInfo
  pub aggregator_info : Option StakeInfo
  pub referenced_contracts : ReferencedCodeHashes
  pub storage_map : StorageMap

-- PaymasterValidationInfo, a stake and what the paymaster returned as its context.
pub record PaymasterValidationInfo : Type 0 where
  pub info : StakeInfo
  pub context : Option String

pub record ValidationResult : Type 0 where
  pub return_info : ReturnInfo
  pub sender_info : StakeInfo
  pub factory_info : Option StakeInfo
  pub paymaster_info : Option PaymasterValidationInfo
  pub aggregator_info : Option StakeInfo
