-- ===== src/Examples.antt =====
-- Data for the tests: a few accounts, operations and stores. The tests stand in the child modules.
mod Store
mod Reputations
mod Deposits
mod Pool
mod Calls
mod Events
mod Bundles
mod Managing
mod Traces
mod Queues
mod Requests
mod Sendings
mod Packings
mod Simulations
use transeptor_bundler.Prelude.{ℕ, String, refl, List, [], ◌∷◌, Option, none, some}
use transeptor_bundler.Types.{
  UserOperation, StakeInfo, MempoolEntry, EntryStatus, pending, ReputationEntry,
}
use transeptor_bundler.Prelude.Dict.{get}
use transeptor_bundler.Prelude.Text.{to_lower_case}
use transeptor_bundler.State.{State, init}
use transeptor_bundler.Reputation.Checks.{StakeConfig}
use transeptor_bundler.Mempool.{find_slot, MempoolEntryMetadata}
use transeptor_bundler.Mempool.Slots.{IsSound}
use transeptor_bundler.Mempool.Manager.{ManagerConfig, RelayUserOpParam}

abbrev pub op : UserOperation
op = record {
  sender = "0xA1";
  nonce = 7;
  factory = none;
  factory_data = none;
  call_data = "0x";
  call_gas_limit = 10;
  verification_gas_limit = 20;
  pre_verification_gas = 5;
  max_fee_per_gas = 100;
  max_priority_fee_per_gas = 10;
  paymaster = some "0xB2";
  paymaster_verification_gas_limit = some 3;
  paymaster_post_op_gas_limit = none;
  paymaster_data = none;
  signature = "0x";
  eip7702_auth = none;
}

abbrev pub other_op : UserOperation
other_op = record op { sender = "0xc3"; nonce = 1; paymaster = none }

abbrev pub entry_of : String → UserOperation → MempoolEntry
entry_of hash user_op = record {
  user_op = user_op;
  user_op_hash = hash;
  prefund = 0;
  referenced_contracts = record { addresses = []; hash = "0x" };
  status = pending;
  aggregator = none;
}

abbrev pub staked : String → StakeInfo
staked addr = record { addr = addr; stake = 1000; unstake_delay_sec = 86400 }

abbrev pub stake_config : StakeConfig
stake_config = record { min_stake = 1000; min_unstake_delay = 86400 }

abbrev pub config : ManagerConfig
config = record { stake = stake_config; balance_of = λ _. 10000; bundle_size = 1 }

abbrev pub param : RelayUserOpParam
param = record {
  user_op = op;
  user_op_hash = "h1";
  prefund = 0;
  referenced_contracts = record { addresses = []; hash = "0x" };
  sender_info = staked "0xA1";
  paymaster_info = some (staked "0xB2");
  factory_info = none;
  aggregator_info = none;
}

abbrev pub other_param : RelayUserOpParam
other_param = record param {
  user_op = other_op;
  user_op_hash = "h2";
  sender_info = staked "0xc3";
  paymaster_info = none;
}

-- A store with two operations in the pool.
abbrev pub two_entries : State
two_entries = record init {
  standard_pool = ("h1", entry_of "h1" op) ∷ ("h2", entry_of "h2" other_op) ∷ [];
  mempool_entry_count = ("0xa1", 1) ∷ ("0xb2", 1) ∷ ("0xc3", 1) ∷ [];
}

-- A store that has the sender of `op` on its black list.
abbrev pub refusing : State
refusing = record init { black_list = "0xa1" ∷ [] }

abbrev pub seen_often : ReputationEntry
seen_often = record { address = "0xa1"; ops_seen = 48; ops_included = 3; status = none }

abbrev pub one_reputation : State
one_reputation = record init { reputation_entries = ("0xa1", seen_often) ∷ [] }

abbrev pub metadata : MempoolEntryMetadata
metadata = record {
  sender_info = staked "0xA1";
  paymaster_info = some (staked "0xB2");
  factory_info = none;
  aggregator_info = none;
  old_entry = none;
}

pub two_entries-IsSound : IsSound two_entries.standard_pool
unfolding find_slot get to_lower_case
two_entries-IsSound = record {
  keyed = (refl, (refl, tt));
  distinct = (refl, (refl, tt));
  one_per_slot = (refl, (refl, tt));
}
