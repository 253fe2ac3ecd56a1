-- ===== src/Bundle/Building/Conflicts.antt =====
-- The entry that `buildBundle` loses.
use transeptor_bundler.Prelude.{String, ◌≡◌, refl, Bool, true, false, List, [], ◌∷◌}
use transeptor_bundler.Types.{
  Eip7702Authorization, UserOperation, MempoolEntry, ValidateUserOpResult,
}
use transeptor_bundler.Outcome.{right}
use transeptor_bundler.State.{State}
use transeptor_bundler.Reputation.{get_status}
use transeptor_bundler.Bundle.{include, should_include_in_bundle, merge_eip7702_authorizations}
use transeptor_bundler.Bundle.Building.{
  BundleBuilderResult, BuilderConfig, read_deposit, join, take_in, decide, consider, build_step,
  build_bundle,
}

module _ {Failure : Type 0} (config : BuilderConfig Failure) where
  -- The three lists of a result are those of another one.
  abbrev SameLists : BundleBuilderResult Failure → BundleBuilderResult Failure → Type 0
  SameLists r acc =
      (r.bundle ≡ acc.bundle)
      × (r.not_included ≡ acc.not_included)
      × (r.marked_to_remove ≡ acc.marked_to_remove)

  join-SameLists :
      (m : Bool × List Eip7702Authorization) (op : UserOperation) (result : ValidateUserOpResult)
      (acc : BundleBuilderResult Failure)
      → m.0 ≡ false
      → SameLists (join config m op result acc) acc
  unfolding join
  join-SameLists (true, tuples) op result acc h = cc
  join-SameLists (false, tuples) op result acc h = (refl, refl, refl)

  module _ (known : List String) (s : State) where
    -- An entry that passes all tests and whose authorization conflicts with one of the bundle is lost:
    -- it is neither in the bundle nor put back nor marked for removal.
    build_bundle_conflict :
        (entry : MempoolEntry) (result : ValidateUserOpResult) (acc : BundleBuilderResult Failure)
        → config.validate entry.user_op entry.referenced_contracts ≡ right result
        → should_include_in_bundle entry.user_op
            (get_status entry.user_op.paymaster s)
            (get_status entry.user_op.factory s)
            result
            (read_deposit config entry.user_op.paymaster acc.used)
            config.max_bundle_gas
            known
          ≡ include
        → (merge_eip7702_authorizations config.signer_of entry.user_op acc.eip7702_tuples).0 ≡ false
        → SameLists (build_bundle config known s (entry ∷ []) acc) acc
    unfolding build_bundle build_step consider decide take_in
    build_bundle_conflict entry result acc valid in' conflict =
        rw (valid, in')
          (join-SameLists
            (merge_eip7702_authorizations config.signer_of entry.user_op acc.eip7702_tuples)
            entry.user_op result _ conflict)
