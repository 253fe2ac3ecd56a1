-- ===== src/Reputation/Checks.antt =====
-- The checks that throw: `checkBanned`, `checkThrottled`, `checkStake`, and the stake of an address
-- on the entry point contract.
use transeptor_bundler.Prelude.{
  ℕ, ◌<◌, String, ◌≡◌, ◌≢◌, Bool, true, false, ◌&&◌, Option, none, some, arith, leb, includes, ◌↔◌,
}
use transeptor_bundler.Prelude.Text.{to_lower_case}
use transeptor_bundler.Types.{ReputationStatus, ok, throttled, banned, StakeInfo}
use transeptor_bundler.Errors.{
  EntityTitle, is_banned, is_throttled, stake_too_low, unstake_delay_too_low,
}
use transeptor_bundler.Outcome.{Result, returned, thrown, ◌>>◌, require_cond}
use transeptor_bundler.State.{State}
use transeptor_bundler.Reputation.{get_status}

pub record StakeConfig : Type 0 where
  pub min_stake : ℕ
  pub min_unstake_delay : ℕ

-- status !== ReputationStatus.BANNED, and THROTTLED
abbrev not_banned : ReputationStatus → Bool
not_banned banned = false
not_banned ok = true
not_banned throttled = true

abbrev not_throttled : ReputationStatus → Bool
not_throttled throttled = false
not_throttled ok = true
not_throttled banned = true

unfoldable pub check_banned : EntityTitle → StakeInfo → State → Result (Unit {0})
check_banned title info s =
    require_cond (not_banned (get_status (some info.addr) s)) (is_banned title info.addr)

unfoldable pub check_throttled : EntityTitle → StakeInfo → State → Result (Unit {0})
check_throttled title info s =
    require_cond (not_throttled (get_status (some info.addr) s)) (is_throttled title info.addr)

unfoldable pub check_stake :
    StakeConfig → EntityTitle → Option StakeInfo → State → Result (Unit {0})
check_stake config title none s = returned tt
check_stake config title (some info) s = do
  require_cond (not_banned (get_status (some info.addr) s)) (is_banned title info.addr)
  require_cond (leb config.min_stake info.stake) (stake_too_low title info.addr)
  require_cond (leb config.min_unstake_delay info.unstake_delay_sec)
      (unstake_delay_too_low title info.addr)

-- `getDepositInfo` of the stake manager contract is a parameter.
pub record DepositInfo : Type 0 where
  pub stake : ℕ
  pub unstake_delay_sec : ℕ

pub record StakeStatus : Type 0 where
  pub stake_info : StakeInfo
  pub is_staked : Bool

unfoldable pub get_stake_status : StakeConfig → (String → DepositInfo) → String → StakeStatus
get_stake_status config get_deposit_info address =
    let info = get_deposit_info address in
    record {
      stake_info = record {
        addr = address;
        stake = info.stake;
        unstake_delay_sec = info.unstake_delay_sec;
      };
      is_staked =
          leb config.min_stake info.stake && leb config.min_unstake_delay info.unstake_delay_sec;
    }

-- `checkStake` passes exactly the addresses that are not banned and that `getStakeStatus` counts as
-- staked, where the stake that is checked is the one on the contract.
pub check_stake_iff :
    (config : StakeConfig) (title : EntityTitle) (get_deposit_info : String → DepositInfo)
    (address : String) (s : State)
    → let status = get_stake_status config get_deposit_info address in
      (check_stake config title (some status.stake_info) s ≡ returned tt)
      ↔ ((get_status (some address) s ≢ banned) × (status.is_staked ≡ true))
unfolding check_stake get_stake_status
check_stake_iff config title deposit address s = ground arith

-- The whitelist does not exempt from the minimum stake: a whitelisted entity with too little stake
-- is refused.
pub check_stake_whitelisted :
    (config : StakeConfig) (title : EntityTitle) (info : StakeInfo) (s : State)
    → includes s.white_list (to_lower_case info.addr) ≡ true
    → info.stake < config.min_stake
    → check_stake config title (some info) s ≡ thrown (stake_too_low title info.addr)
unfolding check_stake get_status
check_stake_whitelisted config title info s listed low = ground arith
