-- ===== src/Simulation/Data.antt =====
-- sim/sim.helper.ts: the data that a validation gives back, and a returned simulation.
use transeptor_bundler.Prelude.{
  ℕ, ◌/◌, ◌%◌, ◌^◌, ◌-◌, String, not, ◌==◌, eqb, max, min, Option, none, some, if◌then◌else◌,
}
use mathlib.Core.Option
use transeptor_bundler.Types.{UserOperation, StakeInfo, ValidationResult}
use transeptor_bundler.Erc7562.{zero_address}
use transeptor_bundler.Reputation.Checks.{DepositInfo}

-- An address is the number of 160 bits that it stands for.
pub record ValidationData : Type 0 where
  pub aggregator : ℕ
  pub valid_after : ℕ
  pub valid_until : ℕ

abbrev pub max_uint_48 : ℕ
max_uint_48 = 2 ^ 48 - 1

-- zeroPadValue('0x01', 20)
abbrev pub sig_validation_failed : ℕ
sig_validation_failed = 1

unfoldable pub merge_validation_data : ValidationData → ValidationData → ValidationData
merge_validation_data account paymaster = record {
  aggregator =
      if not (eqb paymaster.aggregator 0) then sig_validation_failed else account.aggregator;
  valid_after = max account.valid_after paymaster.valid_after;
  valid_until = min account.valid_until paymaster.valid_until;
}

-- The slices of the 32 bytes of a number below 2 ^ 256.
unfoldable pub parse_validation_data : ℕ → ValidationData
parse_validation_data n = record {
  aggregator = n % 2 ^ 160;
  valid_after = n / 2 ^ 208 % 2 ^ 48;
  valid_until = if eqb (n / 2 ^ 160 % 2 ^ 48) 0 then max_uint_48 else n / 2 ^ 160 % 2 ^ 48;
}

unfoldable pub merge_validation_data_values : ℕ → ℕ → ValidationData
unfolding merge_validation_data parse_validation_data
merge_validation_data_values account paymaster =
    merge_validation_data (parse_validation_data account) (parse_validation_data paymaster)

-- types/sim.types.ts, the part of SimulateValidationReturnStruct that is read
pub record SimulatedStakes : Type 0 where
  pub sender : DepositInfo
  pub factory : DepositInfo
  pub paymaster : DepositInfo
  pub aggregator : DepositInfo

pub record SimulationReturn : Type 0 where
  pub pre_op_gas : ℕ
  pub prefund : ℕ
  pub account_validation_data : ℕ
  pub paymaster_validation_data : ℕ
  pub stakes : SimulatedStakes
  pub aggregator : Option String

fill_address : String → DepositInfo → Option StakeInfo
fill_address addr info =
    if addr == zero_address
    then none
    else some
        (record { addr = addr; stake = info.stake; unstake_delay_sec = info.unstake_delay_sec })

unfoldable pub fill_entity : Option String → DepositInfo → Option StakeInfo
unfolding fill_address
fill_entity none info = none
fill_entity (some addr) info = fill_address addr info

-- The address of the sender is not the zero address.
abbrev pub sender_stake : String → DepositInfo → StakeInfo
sender_stake addr info = record {
  addr = addr;
  stake = info.stake;
  unstake_delay_sec = info.unstake_delay_sec;
}

unfoldable pub parse_simulate_validation_result :
    UserOperation → SimulationReturn → ValidationResult
unfolding fill_entity merge_validation_data_values
parse_simulate_validation_result op res =
    let merged =
      merge_validation_data_values res.account_validation_data res.paymaster_validation_data in
    record {
      return_info = record {
        pre_op_gas = res.pre_op_gas;
        prefund = res.prefund;
        sig_failed = not (eqb merged.aggregator 0);
        valid_after = merged.valid_after;
        valid_until = merged.valid_until;
      };
      sender_info = sender_stake op.sender res.stakes.sender;
      factory_info = fill_entity op.factory res.stakes.factory;
      paymaster_info =
          Option.map (λ info. record { info = info; context = none })
            (fill_entity op.paymaster res.stakes.paymaster);
      aggregator_info = fill_entity res.aggregator res.stakes.aggregator;
    }
