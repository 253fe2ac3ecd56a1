-- ===== src/Examples/Bundles.antt =====
-- Tests of the bundle builder and of the merge of storage maps.
use mathlib.Core.Option
use transeptor_bundler.Prelude.{◌≡◌, ◌≤◌, refl, false, String, List, [], ◌∷◌, map, none, some}
use transeptor_bundler.Prelude.Text.{to_lower_case}
use transeptor_bundler.Types.{
  banned, Eip7702Authorization, MempoolEntry, ValidateUserOpResult, StorageMap, root, slots,
  pending,
}
use transeptor_bundler.Outcome.{right}
use transeptor_bundler.State.{init}
use transeptor_bundler.Reputation.{get_status}
use transeptor_bundler.Bundle.{
  should_include_in_bundle, is_entity_throttled, accesses_other_senders_storage,
  exceed_bundle_gas_limit, paymaster_has_insufficient_deposit, merge_eip7702_authorizations,
  merge_authorizations, find_by_signer, include,
}
use transeptor_bundler.Bundle.Budgets.{Covered}
use transeptor_bundler.Bundle.Building.{
  BuilderConfig, BundleBuilderResult, initial, build_bundle, read_deposit, RemoveUserOpDetails,
  failed_2nd_validation,
}
use transeptor_bundler.Bundle.Building.Invariants.{
  call_gas, AllDistinct, total_gas-build_bundle, build_bundle-AllDistinct, build_bundle-Covered,
}
use transeptor_bundler.Bundle.Building.Fates.{IsSplit}
use transeptor_bundler.Bundle.Building.Splitting.{build_bundle-IsSplit}
use transeptor_bundler.Mempool.{find_by_sender_nonce}
use transeptor_bundler.Mempool.Manager.{mentions, find_by_hash, set_status}
use transeptor_bundler.Bundle.Processing.{after_crash}
use transeptor_bundler.Bundle.Creating.{
  HookConfig, finished, after_hook, remove_all, remove_one, on_failure, go_on,
}
use transeptor_bundler.Bundle.Creating.Returning.{find_by_hash-after_hook}
use transeptor_bundler.Bundle.Processing.Crash.{after_crash_lem}
use transeptor_bundler.Examples.{
  two_entries, two_entries-IsSound, op, other_op, entry_of, staked, config,
}

abbrev valid : ValidateUserOpResult
valid = record {
  return_info = record {
    pre_op_gas = 30;
    prefund = 40;
    sig_failed = false;
    valid_after = 0;
    valid_until = 0;
  };
  sender_info = staked "0xA1";
  factory_info = none;
  paymaster_info = none;
  aggregator_info = none;
  referenced_contracts = record { addresses = []; hash = "0x" };
  storage_map = [];
}

-- Room for two operations, and a deposit for each.
abbrev builder : BuilderConfig String
builder = record {
  max_bundle_gas = 80;
  balance_of = λ _. 100;
  validate = λ _ _. right valid;
  signer_of = λ auth. "signer";
}

abbrev entries : List MempoolEntry
entries = entry_of "h1" op ∷ entry_of "h2" other_op ∷ entry_of "h3" op ∷ []

total_gas-build_bundle_example :
    let r = build_bundle builder [] init entries initial in
    (call_gas r.bundle ≤ 80) × (r.used.total_gas ≤ 80)
total_gas-build_bundle_example = total_gas-build_bundle builder [] init entries

build_bundle-AllDistinct_example :
    AllDistinct (map (λ o. o.sender) (build_bundle builder [] init entries initial).bundle)
build_bundle-AllDistinct_example = build_bundle-AllDistinct builder [] init entries

build_bundle-Covered_example :
    Covered (build_bundle builder [] init entries initial).used.paymaster_deposit
build_bundle-Covered_example = build_bundle-Covered builder [] init entries

-- The third operation has the sender of the first.
build_bundle-IsSplit_example :
    let r = build_bundle builder [] init entries initial in
    IsSplit builder entries r.bundle r.not_included r.marked_to_remove
build_bundle-IsSplit_example = build_bundle-IsSplit builder [] init entries

abbrev auth : String → Eip7702Authorization
auth address = record { chain_id = 1; address = address; nonce = 0; y_parity = 0; r = 1; s = 1 }

abbrev delegating : MempoolEntry
delegating = entry_of "h4" (record other_op { eip7702_auth = some (auth "0xd4") })

abbrev conflicting : BundleBuilderResult String
conflicting = record initial { eip7702_tuples = auth "0xe5" ∷ [] }

passes :
    should_include_in_bundle delegating.user_op
      (get_status none init)
      (get_status none init)
      valid
      (read_deposit builder none conflicting.used)
      80
      []
    ≡ include
unfolding should_include_in_bundle is_entity_throttled accesses_other_senders_storage
    exceed_bundle_gas_limit paymaster_has_insufficient_deposit get_status read_deposit
passes = refl

conflicts :
    (merge_eip7702_authorizations builder.signer_of delegating.user_op conflicting.eip7702_tuples).0
    ≡ false
unfolding merge_eip7702_authorizations merge_authorizations find_by_signer to_lower_case
conflicts = refl

abbrev merged : StorageMap
merged = ("0xa1", root "r1") ∷ ("0xb2", slots (("s1", "1") ∷ [])) ∷ []

abbrev validation : StorageMap
validation = ("0xa1", slots (("s1", "7") ∷ [])) ∷ ("0xb2", slots (("s2", "2") ∷ [])) ∷ []

-- The paymaster of one of two operations is to blame.
after_crash_lem_example :
    (get_status (some "0xB2") (after_crash (some "0xB2") op two_entries) ≡ banned)
    × ((k : String) (e : MempoolEntry)
        → find_by_hash k (after_crash (some "0xB2") op two_entries) ≡ some e
        → mentions "0xB2" e ≡ false)
    × (find_by_sender_nonce "0xA1" 7 (after_crash (some "0xB2") op two_entries).standard_pool
        ≡ none)
after_crash_lem_example = after_crash_lem "0xB2" op two_entries (λ h. cc) two_entries-IsSound

abbrev hook : HookConfig String
hook = record {
  manager = config;
  get_deposit_info = λ _. record { stake = 0; unstake_delay_sec = 0 };
  parse_failed_op = λ _. some (0, "AA2");
  is_fatal = λ _. false;
}

-- The first operation failed its second validation, the second one did not fit.
abbrev marked : List (RemoveUserOpDetails String)
marked =
    record { user_op_hash = "h1"; user_op = op; reason = failed_2nd_validation; err = some "e" }
    ∷ []

ends : (after_hook hook ("h2" ∷ []) marked two_entries).0 ≡ finished
unfolding after_hook remove_all remove_one on_failure go_on
ends = refl

find_by_hash-after_hook_example :
    find_by_hash "h2" (after_hook hook ("h2" ∷ []) marked two_entries).1
    ≡ Option.map (set_status pending) (find_by_hash "h2" two_entries)
find_by_hash-after_hook_example =
    find_by_hash-after_hook hook ("h2" ∷ []) marked two_entries "h2" two_entries-IsSound ends
