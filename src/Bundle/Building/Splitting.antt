-- ===== src/Bundle/Building/Splitting.antt =====
-- How the rounds of `buildBundle` add to its three lists.
use mathlib.Core.List.{append-nil, append_assoc}
use transeptor_bundler.Prelude.{
  String, ◌≡◌, refl, sym, ap, ◌∙◌, subst, Bool, true, false, List, [], ◌∷◌, ◌++◌, none, inl, inr,
  Option-cases,
}
use transeptor_bundler.Types.{
  Eip7702Authorization, UserOperation, MempoolEntry, ValidateUserOpResult,
}
use transeptor_bundler.Outcome.{Either, left, right}
use transeptor_bundler.State.{State}
use transeptor_bundler.Bundle.{
  is_banned_entity, is_throttled_entity, duplicate_sender, access_other_sender_storage,
  exceeds_bundler_gas_limit, paymaster_insufficient_deposit, Verdict, include, exclude,
  merge_eip7702_authorizations, merge_authorizations,
}
use transeptor_bundler.Bundle.Building.{
  RemoveUserOpDetails, BundleBuilderResult, BuilderConfig, initial, read_deposit, join, take_in,
  put_back, decide, consider, build_step, build_bundle,
}
use transeptor_bundler.Bundle.Building.Fates.{
  IsSplit, no_entries, in_bundle, is_put_back, is_banned, is_invalid, is_lost, IsSplit-append,
}

joined : {A : Type 0} (x y z a b : List A) → y ≡ x ++ a → z ≡ y ++ b → z ≡ x ++ (a ++ b)
joined x y z a b p q = q ∙ ap (λ l. l ++ b) p ∙ append_assoc x a b

module _ {Failure : Type 0} (config : BuilderConfig Failure) where
  -- What a round, or a loop, adds to each of the three lists.
  record Adds (entries : List MempoolEntry) (before after : BundleBuilderResult Failure)
      : Type 0 where
    bundle : List UserOperation
    back : List String
    marked : List (RemoveUserOpDetails Failure)
    split : IsSplit config entries bundle back marked
    bundled : after.bundle ≡ before.bundle ++ bundle
    returned : after.not_included ≡ before.not_included ++ back
    removed : after.marked_to_remove ≡ before.marked_to_remove ++ marked

  Adds-join :
      (m : Bool × List Eip7702Authorization) (entry : MempoolEntry) (result : ValidateUserOpResult)
      (acc : BundleBuilderResult Failure)
      → config.validate entry.user_op entry.referenced_contracts ≡ right result
      → (entry.user_op.eip7702_auth ≡ none → m.0 ≡ true)
      → Adds (entry ∷ []) acc (join config m entry.user_op result acc)
  unfolding join
  Adds-join (true, tuples) entry result acc valid sure = record {
    bundle = entry.user_op ∷ [];
    back = [];
    marked = [];
    split = in_bundle entry result valid no_entries;
    bundled = refl;
    returned = sym (append-nil acc.not_included);
    removed = sym (append-nil acc.marked_to_remove);
  }
  Adds-join (false, tuples) entry result acc valid sure = record {
    bundle = [];
    back = [];
    marked = [];
    split = elim (Option-cases entry.user_op.eip7702_auth) [
      | inl absent ↦ absurd (untrue (sure absent))
      | inr (auth, given) ↦ is_lost entry result auth valid given no_entries
    ];
    bundled = sym (append-nil acc.bundle);
    returned = sym (append-nil acc.not_included);
    removed = sym (append-nil acc.marked_to_remove);
  }
    where
      untrue : false ≡ true → ⊥
      untrue h = cc

  merge-none :
      (op : UserOperation) (tuples : List Eip7702Authorization)
      → op.eip7702_auth ≡ none
      → (merge_eip7702_authorizations config.signer_of op tuples).0 ≡ true
  unfolding merge_eip7702_authorizations merge_authorizations
  merge-none op tuples h = rw h refl

  Adds-put_back :
      (entry : MempoolEntry) (result : ValidateUserOpResult) (acc : BundleBuilderResult Failure)
      → config.validate entry.user_op entry.referenced_contracts ≡ right result
      → Adds (entry ∷ []) acc (put_back config entry acc)
  Adds-put_back entry result acc valid = record {
    bundle = [];
    back = _;
    marked = [];
    split = is_put_back entry result valid no_entries;
    bundled = sym (append-nil acc.bundle);
    returned = refl;
    removed = sym (append-nil acc.marked_to_remove);
  }

  Adds-decide :
      (v : Verdict) (entry : MempoolEntry) (result : ValidateUserOpResult)
      (acc : BundleBuilderResult Failure)
      → config.validate entry.user_op entry.referenced_contracts ≡ right result
      → Adds (entry ∷ []) acc (decide config v entry result acc)
  unfolding decide take_in
  Adds-decide include entry result acc valid =
      let j =
        Adds-join (merge_eip7702_authorizations config.signer_of entry.user_op acc.eip7702_tuples)
          entry result _ valid (merge-none entry.user_op acc.eip7702_tuples) in
      record {
        bundle = j.bundle;
        back = j.back;
        marked = j.marked;
        split = j.split;
        bundled = j.bundled;
        returned = j.returned;
        removed = j.removed;
      }
  Adds-decide (exclude is_banned_entity) entry result acc valid = record {
    bundle = [];
    back = [];
    marked = _;
    split = is_banned entry result valid no_entries;
    bundled = sym (append-nil acc.bundle);
    returned = sym (append-nil acc.not_included);
    removed = refl;
  }
  Adds-decide (exclude is_throttled_entity) entry result acc valid =
      Adds-put_back entry result acc valid
  Adds-decide (exclude duplicate_sender) entry result acc valid =
      Adds-put_back entry result acc valid
  Adds-decide (exclude access_other_sender_storage) entry result acc valid =
      Adds-put_back entry result acc valid
  Adds-decide (exclude exceeds_bundler_gas_limit) entry result acc valid =
      Adds-put_back entry result acc valid
  Adds-decide (exclude paymaster_insufficient_deposit) entry result acc valid =
      Adds-put_back entry result acc valid

  module _ (known : List String) (s : State) where
    Adds-consider :
        (r : Either Failure ValidateUserOpResult) (entry : MempoolEntry)
        (acc : BundleBuilderResult Failure)
        → config.validate entry.user_op entry.referenced_contracts ≡ r
        → Adds (entry ∷ []) acc (consider config known s r entry acc)
    unfolding consider
    Adds-consider (left failure) entry acc invalid = record {
      bundle = [];
      back = [];
      marked = _;
      split = is_invalid entry failure invalid no_entries;
      bundled = sym (append-nil acc.bundle);
      returned = sym (append-nil acc.not_included);
      removed = refl;
    }
    Adds-consider (right result) entry acc valid = Adds-decide _ entry result acc valid

    Adds-build_step :
        (entry : MempoolEntry) (acc : BundleBuilderResult Failure)
        → Adds (entry ∷ []) acc (build_step config known s entry acc)
    unfolding build_step
    Adds-build_step entry acc =
        let c =
          Adds-consider (config.validate entry.user_op entry.referenced_contracts) entry
            (record acc { used = read_deposit config entry.user_op.paymaster acc.used }) refl in
        record {
          bundle = c.bundle;
          back = c.back;
          marked = c.marked;
          split = c.split;
          bundled = c.bundled;
          returned = c.returned;
          removed = c.removed;
        }

    Adds-build_bundle :
        (entries : List MempoolEntry) (acc : BundleBuilderResult Failure)
        → Adds entries acc (build_bundle config known s entries acc)
    unfolding build_bundle
    Adds-build_bundle [] acc = record {
      bundle = [];
      back = [];
      marked = [];
      split = no_entries;
      bundled = sym (append-nil acc.bundle);
      returned = sym (append-nil acc.not_included);
      removed = sym (append-nil acc.marked_to_remove);
    }
    Adds-build_bundle (entry ∷ entries) acc =
        let one = Adds-build_step entry acc in
        let rest = Adds-build_bundle entries (build_step config known s entry acc) in
        record {
          bundle = one.bundle ++ rest.bundle;
          back = one.back ++ rest.back;
          marked = one.marked ++ rest.marked;
          split = IsSplit-append config one.split rest.split;
          bundled = joined acc.bundle _ _ _ _ one.bundled rest.bundled;
          returned = joined acc.not_included _ _ _ _ one.returned rest.returned;
          removed = joined acc.marked_to_remove _ _ _ _ one.removed rest.removed;
        }

    -- Every entry that the builder is given is in one of three lists, and in no two of them, and each list
    -- keeps the order of the entries. Where the second validation gives a result, its operation is in the
    -- bundle, or its hash is put back, or it is marked for removal as banned; where the validation
    -- fails, it is marked for removal with that failure. Only an entry that passed the validation and whose
    -- operation has an authorization can be in none of the three.
    pub build_bundle-IsSplit :
        (entries : List MempoolEntry)
        → let r = build_bundle config known s entries initial in
          IsSplit config entries r.bundle r.not_included r.marked_to_remove
    build_bundle-IsSplit entries =
        let a = Adds-build_bundle entries initial in
        let r = build_bundle config known s entries initial in
        subst (λ bundle. IsSplit config entries bundle r.not_included r.marked_to_remove)
          (sym a.bundled)
          (subst (λ back. IsSplit config entries a.bundle back r.marked_to_remove) (sym a.returned)
            (subst (λ marked. IsSplit config entries a.bundle a.back marked) (sym a.removed)
              a.split))
