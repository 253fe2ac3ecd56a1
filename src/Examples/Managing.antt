-- ===== src/Examples/Managing.antt =====
-- Tests of the bundle manager.
use transeptor_bundler.Prelude.{false, true, String, [], ◌∷◌, none, some}
use transeptor_bundler.Outcome.{right}
use transeptor_bundler.Mempool.Slots.{IsSound}
use transeptor_bundler.Bundle.Building.{BuilderConfig}
use transeptor_bundler.Bundle.Processing.{failed_op}
use transeptor_bundler.Bundle.Creating.{HookConfig}
use transeptor_bundler.Event.{user_operation_event, Watcher}
use transeptor_bundler.Bundle.Manager.{Answers, do_attempt_bundle}
use transeptor_bundler.Bundle.Manager.Soundness.{do_attempt_bundle-IsSound}
use transeptor_bundler.Bundle.Manager.Automation.{
  auto, manual, create_bundle_manager, set_modes, IsInStep,
  set_modes-create_bundle_manager-IsInStep,
}
use transeptor_bundler.Examples.{two_entries, two_entries-IsSound, config}

abbrev hook : HookConfig String
hook = record {
  manager = config;
  get_deposit_info = λ _. record { stake = 0; unstake_delay_sec = 0 };
  parse_failed_op = λ _. some (0, "AA2");
  is_fatal = λ _. false;
}

-- Every operation passes its second validation.
abbrev builder : BuilderConfig String
builder = record {
  max_bundle_gas = 1000;
  balance_of = λ _. 100;
  validate = λ _ _. right (record {
    return_info = record {
      pre_op_gas = 30;
      prefund = 40;
      sig_failed = false;
      valid_after = 0;
      valid_until = 0;
    };
    sender_info = record { addr = "0xA1"; stake = 0; unstake_delay_sec = 0 };
    factory_info = none;
    paymaster_info = none;
    aggregator_info = none;
    referenced_contracts = record { addresses = []; hash = "0x" };
    storage_map = [];
  });
  signer_of = λ auth. "signer";
}

-- The first operation was executed and failed; the bundle is refused for its first operation.
abbrev answers : Answers
answers = record {
  query = λ _. (
    record {
      args = user_operation_event "h1" false "0xA1" "0xB2";
      transaction_hash = "t1";
      block_number = 12;
    }
        ∷ [],
    [],
    [],
  );
  current_block = 20;
  send = λ _. failed_op 0 "AA23 reverted";
}

abbrev watcher : Watcher
watcher = record { last_block = none; event_aggregator = none; event_aggregator_tx_hash = none }

do_attempt_bundle-IsSound_example :
    IsSound (do_attempt_bundle hook builder answers true watcher two_entries).2.standard_pool
do_attempt_bundle-IsSound_example =
    do_attempt_bundle-IsSound hook builder answers true watcher two_entries two_entries-IsSound

set_modes-create_bundle_manager-IsInStep_example :
    IsInStep (set_modes (auto ∷ manual ∷ auto ∷ auto ∷ []) (create_bundle_manager true))
set_modes-create_bundle_manager-IsInStep_example =
    set_modes-create_bundle_manager-IsInStep true (auto ∷ manual ∷ auto ∷ auto ∷ [])
