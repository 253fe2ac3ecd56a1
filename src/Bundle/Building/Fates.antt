-- ===== src/Bundle/Building/Fates.antt =====
-- What becomes of each entry that `buildBundle` was given.
use transeptor_bundler.Prelude.{String, ◌≡◌, List, [], ◌∷◌, ◌++◌, none, some}
use transeptor_bundler.Types.{
  Eip7702Authorization, UserOperation, MempoolEntry, ValidateUserOpResult,
}
use transeptor_bundler.Outcome.{left, right}
use transeptor_bundler.Bundle.Building.{RemoveReason, RemoveUserOpDetails, BuilderConfig}

module _ {Failure : Type 0} (config : BuilderConfig Failure) where
  -- The operations of a bundle, the hashes of the entries that are put back and the removals, as they
  -- come from a list of entries in its order. Only an entry with an authorization can be lost.
  pub data IsSplit
      : List MempoolEntry
        → List UserOperation
        → List String
        → List (RemoveUserOpDetails Failure)
        → Type 0 where
    no_entries : IsSplit [] [] [] []
    in_bundle :
        (entry : MempoolEntry) (result : ValidateUserOpResult) {entries : List MempoolEntry}
        {bundle : List UserOperation} {back : List String}
        {marked : List (RemoveUserOpDetails Failure)}
        → config.validate entry.user_op entry.referenced_contracts ≡ right result
        → IsSplit entries bundle back marked
        → IsSplit (entry ∷ entries) (entry.user_op ∷ bundle) back marked
    is_put_back :
        (entry : MempoolEntry) (result : ValidateUserOpResult) {entries : List MempoolEntry}
        {bundle : List UserOperation} {back : List String}
        {marked : List (RemoveUserOpDetails Failure)}
        → config.validate entry.user_op entry.referenced_contracts ≡ right result
        → IsSplit entries bundle back marked
        → IsSplit (entry ∷ entries) bundle (entry.user_op_hash ∷ back) marked
    is_banned :
        (entry : MempoolEntry) (result : ValidateUserOpResult) {entries : List MempoolEntry}
        {bundle : List UserOperation} {back : List String}
        {marked : List (RemoveUserOpDetails Failure)}
        → config.validate entry.user_op entry.referenced_contracts ≡ right result
        → IsSplit entries bundle back marked
        → IsSplit (entry ∷ entries) bundle back (
            record {
              user_op_hash = entry.user_op_hash;
              user_op = entry.user_op;
              reason = RemoveReason.banned;
              err = none;
            }
            ∷ marked)
    is_invalid :
        (entry : MempoolEntry) (failure : Failure) {entries : List MempoolEntry}
        {bundle : List UserOperation} {back : List String}
        {marked : List (RemoveUserOpDetails Failure)}
        → config.validate entry.user_op entry.referenced_contracts ≡ left failure
        → IsSplit entries bundle back marked
        → IsSplit (entry ∷ entries) bundle back (
            record {
              user_op_hash = entry.user_op_hash;
              user_op = entry.user_op;
              reason = RemoveReason.failed_2nd_validation;
              err = some failure;
            }
            ∷ marked)
    is_lost :
        (entry : MempoolEntry) (result : ValidateUserOpResult) (auth : Eip7702Authorization)
        {entries : List MempoolEntry} {bundle : List UserOperation} {back : List String}
        {marked : List (RemoveUserOpDetails Failure)}
        → config.validate entry.user_op entry.referenced_contracts ≡ right result
        → entry.user_op.eip7702_auth ≡ some auth
        → IsSplit entries bundle back marked
        → IsSplit (entry ∷ entries) bundle back marked

  pub IsSplit-append :
      {es fs : List MempoolEntry} {a b : List UserOperation} {c d : List String}
      {m n : List (RemoveUserOpDetails Failure)}
      → IsSplit es a c m
      → IsSplit fs b d n
      → IsSplit (es ++ fs) (a ++ b) (c ++ d) (m ++ n)
  IsSplit-append no_entries s = s
  IsSplit-append (in_bundle entry result v r) s = in_bundle entry result v (IsSplit-append r s)
  IsSplit-append (is_put_back entry result v r) s = is_put_back entry result v (IsSplit-append r s)
  IsSplit-append (is_banned entry result v r) s = is_banned entry result v (IsSplit-append r s)
  IsSplit-append (is_invalid entry failure v r) s = is_invalid entry failure v (IsSplit-append r s)
  IsSplit-append (is_lost entry result auth v given r) s =
      is_lost entry result auth v given (IsSplit-append r s)
