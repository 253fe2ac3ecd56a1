-- ===== src/UserOps/Packing/Laws.antt =====
-- The way of an operation to the contract's form and back.
use mathlib.Core.List.{append_assoc}
use transeptor_bundler.Prelude.{
  ℕ, ◌+◌, ◌^◌, ◌<◌, ◌≡◌, refl, sym, ap, ◌∙◌, String, false, [], ◌++◌, length, length-append, take,
  drop, slice, eqb, ltb, Option, none, some, arith,
}
use transeptor_bundler.Types.{UserOperation}
use transeptor_bundler.Outcome.{right, flat_map}
use transeptor_bundler.Validation.Input.{is_marker}
use transeptor_bundler.UserOps.Packing.{
  ByteString, Hex, unpack_uint, pack_paymaster, pack_init_code, pack_user_op, PaymasterFields,
  unpack_paymaster_and_data, plain, with_factory, with_paymaster, unpack_user_op,
}
use transeptor_bundler.UserOps.Packing.Bytes.{unpack_uint-pack_uint, take-append, drop-append}

module _ (hex : Hex) where
  -- A text is read as bytes and written as it was.
  abbrev pub IsPrinted : String → Type 0
  IsPrinted text = hex.hexlify (hex.get_bytes text) ≡ text

  abbrev pub IsAddressOfBytes : String → Type 0
  IsAddressOfBytes text = (length (hex.get_bytes text) ≡ 20) × IsPrinted text

  -- A factory has data, and is not the marker of EIP-7702; without one there is no data.
  abbrev pub FactoryFits : Option String → Option String → Type 0
  FactoryFits none payload = payload ≡ none
  FactoryFits (some factory) payload =
      IsAddressOfBytes factory
      × (is_marker (some factory) ≡ false)
      × ((text : String) × (payload ≡ some text) × IsPrinted text)

  -- A paymaster has both limits, of 16 bytes, and data; without one they are not there.
  abbrev pub PaymasterFits : Option String → Option ℕ → Option ℕ → Option String → Type 0
  PaymasterFits none verification post_op payload =
      (verification ≡ none) × (post_op ≡ none) × (payload ≡ none)
  PaymasterFits (some paymaster) verification post_op payload =
      IsAddressOfBytes paymaster
      × ((v : ℕ) × (verification ≡ some v) × (v < 2 ^ 128))
      × ((p : ℕ) × (post_op ≡ some p) × (p < 2 ^ 128))
      × ((text : String) × (payload ≡ some text) × IsPrinted text)

  pub record IsPackable (op : UserOperation) : Type 0 where
    pub verification : op.verification_gas_limit < 2 ^ 128
    pub call : op.call_gas_limit < 2 ^ 128
    pub priority_fee : op.max_priority_fee_per_gas < 2 ^ 128
    pub max_fee : op.max_fee_per_gas < 2 ^ 128
    pub factory : FactoryFits op.factory op.factory_data
    pub paymaster :
        PaymasterFits op.paymaster op.paymaster_verification_gas_limit
          op.paymaster_post_op_gas_limit op.paymaster_data

  with_factory-pack_init_code :
      (factory payload : Option String) (op : UserOperation)
      → FactoryFits factory payload
      → op.factory ≡ none
      → op.factory_data ≡ none
      → with_factory hex (pack_init_code hex factory payload) op
        ≡ record op { factory = factory; factory_data = payload }
  with_factory-pack_init_code none payload op fits f d = rw (fits, f, d) refl
  with_factory-pack_init_code (some factory) payload op ((size, printed), other, given) f d =
      let (text, e, data_printed) = given in
      let a = hex.get_bytes factory in
      let b = hex.get_bytes text in
      let some_bytes : eqb (length (a ++ b)) 0 ≡ false = ground (arith, length-append a b, size) in
      let first : hex.hexlify (slice 0 20 (a ++ b)) ≡ factory =
        ap hex.hexlify (take-append 20 a b size) ∙ printed in
      let second : hex.hexlify (drop 20 (a ++ b)) ≡ text =
        ap hex.hexlify (drop-append 20 a b size) ∙ data_printed in
      rw (e, other, some_bytes, first, second) refl

  -- What is read from the packed fields of a paymaster.
  abbrev FieldsOf :
      Option String → Option ℕ → Option ℕ → Option String → Option (PaymasterFields hex) → Type 0
  FieldsOf none verification post_op payload read = read ≡ none
  FieldsOf (some paymaster) verification post_op payload read =
      (fields : PaymasterFields hex) × ((read ≡ some fields)
        × (fields.paymaster ≡ paymaster)
        × (some fields.verification_gas ≡ verification)
        × (some fields.post_op_gas_limit ≡ post_op)
        × (some fields.payload ≡ payload))

  unpack_paymaster_and_data-pack_paymaster :
      (paymaster : Option String) (verification post_op : Option ℕ) (payload : Option String)
      → PaymasterFits paymaster verification post_op payload
      → (bytes : ByteString) × ((pack_paymaster hex paymaster verification post_op payload
            ≡ right bytes)
          × ((read : Option (PaymasterFields hex)) × (unpack_paymaster_and_data hex bytes
                ≡ right read)
              × FieldsOf paymaster verification post_op payload read))
  unfolding unpack_paymaster_and_data
  unpack_paymaster_and_data-pack_paymaster none verification post_op payload fits =
      ([], (refl, (none, refl, refl)))
  unpack_paymaster_and_data-pack_paymaster (some p) verification post_op payload fits =
      let ((size, printed), (v, ve, vl), (q, qe, ql), given) = fits in
      let (text, te, data_printed) = given in
      let (limits, (packed, width, again)) = unpack_uint-pack_uint v q vl ql in
      let a = hex.get_bytes p in
      let b = hex.get_bytes text in
      let all = a ++ (limits ++ b) in
      let long : length all ≡ 52 + length b =
        omega (arith, length-append a (limits ++ b), length-append limits b, size, width) in
      let some_bytes : eqb (length all) 0 ≡ false = ground (arith, long) in
      let enough : ltb (length all) 52 ≡ false = ground (arith, long) in
      let middle : slice 20 52 all ≡ limits =
        ap (take 32) (drop-append 20 a (limits ++ b) size) ∙ take-append 32 limits b width in
      let rest : drop 52 all ≡ b =
        ap (drop 52) (sym (append_assoc a limits b))
        ∙ drop-append 52 (a ++ limits) b (omega (arith, length-append a limits, size, width)) in
      (
        all,
        (
          rw (ve, qe, te, packed) refl,
          (
            _,
            rw (some_bytes, enough) refl,
            (
              _,
              (
                refl,
                ap hex.hexlify (take-append 20 a (limits ++ b) size) ∙ printed,
                sym (ve ∙ ap some (sym (ap (λ x. (unpack_uint x).0) middle ∙ ap (λ x. x.0) again))),
                sym (qe ∙ ap some (sym (ap (λ x. (unpack_uint x).1) middle ∙ ap (λ x. x.1) again))),
                sym (te ∙ ap some (sym (ap hex.hexlify rest ∙ data_printed))),
              ),
            ),
          ),
        ),
      )

  with_paymaster-FieldsOf :
      (paymaster : Option String) (verification post_op : Option ℕ) (payload : Option String)
      (read : Option (PaymasterFields hex)) (base : UserOperation)
      → PaymasterFits paymaster verification post_op payload
      → FieldsOf paymaster verification post_op payload read
      → base.paymaster ≡ none
      → base.paymaster_verification_gas_limit ≡ none
      → base.paymaster_post_op_gas_limit ≡ none
      → base.paymaster_data ≡ none
      → with_paymaster hex read base ≡ record base {
        paymaster = paymaster;
        paymaster_verification_gas_limit = verification;
        paymaster_post_op_gas_limit = post_op;
        paymaster_data = payload;
      }
  with_paymaster-FieldsOf none verification post_op payload read base (v, q, d) nothing b0 b1 b2
        b3 =
      rw (nothing, v, q, d, b0, b1, b2, b3) refl
  with_paymaster-FieldsOf (some p) verification post_op payload read base fits given b0 b1 b2 b3 =
      let (fields, (e, same, v, q, d)) = given in rw (e, same, sym v, sym q, sym d) refl

  -- An operation whose amounts have at most 16 bytes, whose factory and paymaster come with their fields and
  -- whose texts are spelled as the library prints them is packed, and unpacked as it was, without
  -- its authorization.
  pub unpack_user_op-pack_user_op :
      (op : UserOperation)
      → IsPackable op
      → flat_map (pack_user_op hex op) (unpack_user_op hex)
        ≡ right (record op { eip7702_auth = none })
  unfolding pack_user_op unpack_user_op
  unpack_user_op-pack_user_op op fits =
      let (bytes, (packed, (read, unpacked, fields))) =
        unpack_paymaster_and_data-pack_paymaster op.paymaster op.paymaster_verification_gas_limit
          op.paymaster_post_op_gas_limit op.paymaster_data fits.paymaster in
      let (limits, (gas_packed, gas_width, gas)) =
        unpack_uint-pack_uint op.verification_gas_limit op.call_gas_limit fits.verification
          fits.call in
      let (fees, (fees_packed, fees_width, fee)) =
        unpack_uint-pack_uint op.max_priority_fee_per_gas op.max_fee_per_gas fits.priority_fee
          fits.max_fee in
      let base = plain hex (record {
        sender = op.sender;
        nonce = op.nonce;
        init_code = pack_init_code hex op.factory op.factory_data;
        call_data = op.call_data;
        account_gas_limits = limits;
        pre_verification_gas = op.pre_verification_gas;
        gas_fees = fees;
        paymaster_and_data = bytes;
        signature = op.signature;
      }) in
      let made =
        with_factory-pack_init_code op.factory op.factory_data base fits.factory refl refl in
      let whole =
        with_paymaster-FieldsOf op.paymaster op.paymaster_verification_gas_limit
          op.paymaster_post_op_gas_limit op.paymaster_data read
          (record base { factory = op.factory; factory_data = op.factory_data }) fits.paymaster
          fields refl refl refl refl in
      rw (packed, gas_packed, fees_packed, unpacked)
        (ap right (
          ap (with_paymaster hex read) made
          ∙ whole
          ∙ rw (ap (λ x. x.0) gas, ap (λ x. x.1) gas, ap (λ x. x.0) fee, ap (λ x. x.1) fee) refl))
