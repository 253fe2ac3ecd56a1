-- ===== src/Bundle/Building/Invariants.antt =====
-- What `buildBundle` guarantees of the bundle: gas, senders, deposits, and where every entry ends up.
use transeptor_bundler.Prelude.{
  ℕ, ◌+◌, ◌≤◌, String, ◌≡◌, refl, sym, ap, ◌∙◌, subst, Bool, true, false, ◌&&◌, not, ◌==◌, eq_iff,
  List, [], ◌∷◌, ◌++◌, map, includes, Option, none, some, arith, inl, inr, Bool-cases,
}
use transeptor_bundler.Prelude.Dict.{get}
use transeptor_bundler.Types.{
  Eip7702Authorization, UserOperation, MempoolEntry, ReputationStatus, ValidateUserOpResult,
}
use transeptor_bundler.Outcome.{Either, left, right}
use transeptor_bundler.State.{State}
use transeptor_bundler.Reputation.{get_status}
use transeptor_bundler.Bundle.{
  Used, is_banned_entity, is_throttled_entity, duplicate_sender, access_other_sender_storage,
  exceeds_bundler_gas_limit, paymaster_insufficient_deposit, Verdict, include, exclude, gas_of,
  should_include_in_bundle, exceed_bundle_gas_limit, update_entity_stake_count_and_deposit,
  paymaster_has_insufficient_deposit,
}
use transeptor_bundler.Bundle.Budgets.{Covered, put-Covered, charged-Covered}
use transeptor_bundler.Bundle.Building.{
  is_unset, BundleBuilderResult, BuilderConfig, initial, read_deposit, join, take_in, decide,
  consider, build_step, build_bundle,
}

-- What an included operation has passed.
included_parts :
    (op : UserOperation) (p f : ReputationStatus) (result : ValidateUserOpResult) (used : Used)
    (max_bundle_gas : ℕ) (known : List String)
    → should_include_in_bundle op p f result used max_bundle_gas known ≡ include
    → (includes used.senders op.sender ≡ false)
      × (used.total_gas + gas_of result op ≤ max_bundle_gas)
      × (paymaster_has_insufficient_deposit op.paymaster result used.paymaster_deposit ≡ false)
unfolding should_include_in_bundle exceed_bundle_gas_limit
included_parts op p f result used max_bundle_gas known h = ground arith

module _ {Failure : Type 0} (config : BuilderConfig Failure) (known : List String) (s : State) where
  -- A property of the result that every way of treating an entry keeps.
  module _ {ℓ} (P : BundleBuilderResult Failure → Type ℓ)
      (deposit : (o : Option String) (acc : BundleBuilderResult Failure)
        → P acc
        → P (record acc { used = read_deposit config o acc.used }))
      (marked : (acc acc' : BundleBuilderResult Failure)
        → acc.bundle ≡ acc'.bundle
        → acc.used ≡ acc'.used
        → P acc
        → P acc')
      (taken : (entry : MempoolEntry) (result : ValidateUserOpResult)
          (acc : BundleBuilderResult Failure)
        → includes acc.used.senders entry.user_op.sender ≡ false
        → acc.used.total_gas + gas_of result entry.user_op ≤ config.max_bundle_gas
        → paymaster_has_insufficient_deposit entry.user_op.paymaster result
            acc.used.paymaster_deposit
          ≡ false
        → P acc
        → P (take_in config entry result acc)) where
    keeps-decide :
        (v : Verdict) (entry : MempoolEntry) (result : ValidateUserOpResult)
        (acc : BundleBuilderResult Failure)
        → (v ≡ include
            → (includes acc.used.senders entry.user_op.sender ≡ false)
              × (acc.used.total_gas + gas_of result entry.user_op ≤ config.max_bundle_gas)
              × (paymaster_has_insufficient_deposit entry.user_op.paymaster result
                    acc.used.paymaster_deposit
                  ≡ false))
        → P acc
        → P (decide config v entry result acc)
    unfolding decide
    keeps-decide include entry result acc parts h =
        let (fresh, fits, covered) = parts refl in taken entry result acc fresh fits covered h
    keeps-decide (exclude is_banned_entity) entry result acc parts h = marked acc _ refl refl h
    keeps-decide (exclude is_throttled_entity) entry result acc parts h = marked acc _ refl refl h
    keeps-decide (exclude duplicate_sender) entry result acc parts h = marked acc _ refl refl h
    keeps-decide (exclude access_other_sender_storage) entry result acc parts h =
        marked acc _ refl refl h
    keeps-decide (exclude exceeds_bundler_gas_limit) entry result acc parts h =
        marked acc _ refl refl h
    keeps-decide (exclude paymaster_insufficient_deposit) entry result acc parts h =
        marked acc _ refl refl h

    keeps-consider :
        (r : Either Failure ValidateUserOpResult) (entry : MempoolEntry)
        (acc : BundleBuilderResult Failure)
        → P acc
        → P (consider config known s r entry acc)
    unfolding consider
    keeps-consider (left failure) entry acc h = marked acc _ refl refl h
    keeps-consider (right result) entry acc h =
        keeps-decide _ entry result acc
          (included_parts entry.user_op (get_status entry.user_op.paymaster s)
            (get_status entry.user_op.factory s) result acc.used config.max_bundle_gas known)
          h

    keeps-build_bundle :
        (entries : List MempoolEntry) (acc : BundleBuilderResult Failure)
        → P acc
        → P (build_bundle config known s entries acc)
    unfolding build_bundle build_step
    keeps-build_bundle [] acc h = h
    keeps-build_bundle (entry ∷ entries) acc h = keeps-build_bundle entries _ (
        keeps-consider (config.validate entry.user_op entry.referenced_contracts) entry _
          (deposit entry.user_op.paymaster acc h))

-- The call gas limits of the operations of a bundle.
abbrev pub call_gas : List UserOperation → ℕ
call_gas [] = 0
call_gas (op ∷ ops) = op.call_gas_limit + call_gas ops

call_gas-append :
    (ops : List UserOperation) (op : UserOperation)
    → call_gas (ops ++ op ∷ []) ≡ call_gas ops + op.call_gas_limit
call_gas-append [] op = omega arith
call_gas-append (o ∷ ops) op = omega (arith, call_gas-append ops op)

abbrev pub AllDistinct : List String → Type 0
AllDistinct [] = Unit
AllDistinct (x ∷ xs) = (includes xs x ≡ false) × AllDistinct xs

includes-append :
    (xs : List String) (y a : String)
    → includes xs a ≡ false
    → (y == a) ≡ false
    → includes (xs ++ y ∷ []) a ≡ false
includes-append [] y a h k = ground arith
includes-append (x ∷ xs) y a h k = ground (arith, includes-append xs y a)

AllDistinct-append :
    (xs : List String) (y : String)
    → AllDistinct xs
    → includes xs y ≡ false
    → AllDistinct (xs ++ y ∷ [])
AllDistinct-append [] y d h = (refl, tt)
AllDistinct-append (x ∷ xs) y (f, d) h = (
  includes-append xs y x f (ground (arith, eq_iff x y, eq_iff y x)),
  AllDistinct-append xs y d (ground arith),
)

senders-append :
    (ops : List UserOperation) (op : UserOperation)
    → map (λ o. o.sender) (ops ++ op ∷ []) ≡ map (λ o. o.sender) ops ++ op.sender ∷ []
senders-append [] op = refl
senders-append (o ∷ ops) op = rw (senders-append ops op)

module _ {Failure : Type 0} (config : BuilderConfig Failure) where
  read_deposit-same :
      (o : Option String) (used : Used)
      → ((read_deposit config o used).total_gas ≡ used.total_gas)
        × ((read_deposit config o used).senders ≡ used.senders)
  unfolding read_deposit
  read_deposit-same none used = (refl, refl)
  read_deposit-same (some a) used = ground arith

  -- What the bundle's lists and budgets have to do with each other.
  record Fits (r : BundleBuilderResult Failure) : Type 0 where
    counted_gas : call_gas r.bundle ≤ r.used.total_gas
    below_limit : r.used.total_gas ≤ config.max_bundle_gas
    senders_of_bundle : map (λ o. o.sender) r.bundle ≡ r.used.senders
    distinct : AllDistinct r.used.senders

  join-Fits :
      (m : Bool × List Eip7702Authorization) (op : UserOperation) (result : ValidateUserOpResult)
      (r : BundleBuilderResult Failure)
      → includes r.used.senders op.sender ≡ false
      → r.used.total_gas + gas_of result op ≤ config.max_bundle_gas
      → Fits r
      → Fits (join config m op result r)
  unfolding join
  join-Fits (false, tuples) op result r fresh fits h = record {
    counted_gas = h.counted_gas;
    below_limit = h.below_limit;
    senders_of_bundle = h.senders_of_bundle;
    distinct = h.distinct;
  }
  join-Fits (true, tuples) op result r fresh fits h = record {
    counted_gas = omega (arith, call_gas-append r.bundle op, h.counted_gas);
    below_limit = fits;
    senders_of_bundle =
        rw fresh (senders-append r.bundle op ∙ ap (λ xs. xs ++ op.sender ∷ []) h.senders_of_bundle);
    distinct = rw fresh (AllDistinct-append r.used.senders op.sender h.distinct fresh);
  }

  Fits-by :
      (r r' : BundleBuilderResult Failure)
      → r.bundle ≡ r'.bundle
      → r.used.total_gas ≡ r'.used.total_gas
      → r.used.senders ≡ r'.used.senders
      → Fits r
      → Fits r'
  Fits-by r r' b g n h = record {
    counted_gas = rw (← b, ← g) h.counted_gas;
    below_limit = rw (← g) h.below_limit;
    senders_of_bundle = rw (← b, ← n) h.senders_of_bundle;
    distinct = rw (← n) h.distinct;
  }

  build_bundle-Fits :
      (known : List String) (s : State) (entries : List MempoolEntry)
      (acc : BundleBuilderResult Failure)
      → Fits acc
      → Fits (build_bundle config known s entries acc)
  unfolding take_in
  build_bundle-Fits known s entries acc h =
      keeps-build_bundle config known s Fits
        (λ o r k.
          Fits-by r _ refl (sym (read_deposit-same o r.used).0) (sym (read_deposit-same o r.used).1)
            k)
        (λ r r' b u k. Fits-by r r' b (ap (λ x. x.total_gas) u) (ap (λ x. x.senders) u) k)
        (λ entry result r fresh fits covered k.
          join-Fits _ entry.user_op result _ fresh fits (Fits-by r _ refl refl refl k))
        entries acc h

  initial-Fits : Fits initial
  initial-Fits = record {
    counted_gas = omega arith;
    below_limit = omega arith;
    senders_of_bundle = refl;
    distinct = tt;
  }

  -- A bundle stays below the gas limit: the call gas limits of its operations together, as well as the
  -- total that the builder keeps, are at most `maxBundleGas`.
  pub total_gas-build_bundle :
      (known : List String) (s : State) (entries : List MempoolEntry)
      → let r = build_bundle config known s entries initial in
        (call_gas r.bundle ≤ config.max_bundle_gas) × (r.used.total_gas ≤ config.max_bundle_gas)
  total_gas-build_bundle known s entries =
      let fits = build_bundle-Fits known s entries initial initial-Fits in
      (omega (arith, fits.counted_gas, fits.below_limit), fits.below_limit)

  -- A bundle has at most one operation of every sender, as the operations spell it.
  pub build_bundle-AllDistinct :
      (known : List String) (s : State) (entries : List MempoolEntry)
      → AllDistinct (map (λ o. o.sender) (build_bundle config known s entries initial).bundle)
  build_bundle-AllDistinct known s entries =
      let fits = build_bundle-Fits known s entries initial initial-Fits in
      subst AllDistinct (sym fits.senders_of_bundle) fits.distinct

  read_deposit-Covered :
      (o : Option String) (used : Used)
      → Covered used.paymaster_deposit
      → Covered (read_deposit config o used).paymaster_deposit
  unfolding read_deposit
  read_deposit-Covered none used h = h
  read_deposit-Covered (some a) used h =
      elim (Bool-cases (not (a == "") && is_unset (get a used.paymaster_deposit))) [
        | inl unset ↦ rw unset (put-Covered a (config.balance_of a) used.paymaster_deposit h)
        | inr there ↦ rw there h
      ]

  deposits-join :
      (m : Bool × List Eip7702Authorization) (op : UserOperation) (result : ValidateUserOpResult)
      (r : BundleBuilderResult Failure)
      → (join config m op result r).used.paymaster_deposit ≡ r.used.paymaster_deposit
  unfolding join
  deposits-join (false, tuples) op result r = refl
  deposits-join (true, tuples) op result r = refl

  -- The deposits that the builder keeps for the paymasters of a bundle never fall below zero.
  pub build_bundle-Covered :
      (known : List String) (s : State) (entries : List MempoolEntry)
      → Covered (build_bundle config known s entries initial).used.paymaster_deposit
  unfolding take_in update_entity_stake_count_and_deposit
  build_bundle-Covered known s entries =
      keeps-build_bundle config known s (λ r. Covered r.used.paymaster_deposit)
        (λ o r k. read_deposit-Covered o r.used k)
        (λ r r' b u k. subst (λ x. Covered x.paymaster_deposit) u k)
        (λ entry result r fresh fits covered k.
          subst Covered (sym (deposits-join _ entry.user_op result _))
            (charged-Covered entry.user_op.paymaster result r.used.paymaster_deposit covered k))
        entries initial (λ p. unfold get in refl)
