-- ===== src/UserOps/Packing.antt =====
-- utils/user-op.utils.ts: an operation as the contract takes it, and back. Bytes are numbers below 256; how a
-- text in hexadecimal is read as bytes and written from them is a parameter, the library's `getBytes` and
-- `hexlify`.
pub mod Bytes
pub mod Laws
use transeptor_bundler.Prelude.{
  ℕ, zero, suc, ◌+◌, ◌*◌, ◌/◌, ◌%◌, ◌^◌, String, Bool, List, [], ◌∷◌, ◌++◌, length, take, drop,
  slice, ltb, eqb, Option, none, some, if◌then◌else◌,
}
use transeptor_bundler.Types.{UserOperation}
use transeptor_bundler.Outcome.{Either, left, right, flat_map}
use transeptor_bundler.Validation.Input.{is_marker}

abbrev pub ByteString : Type 0
ByteString = List ℕ

pub record Hex : Type 0 where
  pub get_bytes : String → ByteString
  pub hexlify : ByteString → String

pub record PackedUserOperation : Type 0 where
  pub sender : String
  pub nonce : ℕ
  pub init_code : ByteString
  pub call_data : String
  pub account_gas_limits : ByteString
  pub pre_verification_gas : ℕ
  pub gas_fees : ByteString
  pub paymaster_and_data : ByteString
  pub signature : String

-- The exceptions; a number of more than 32 bytes is refused by `zeroPadValue`.
pub data PackError : Type 0 where
  paymaster_with_no_gas_limits out_of_range invalid_paymaster_and_data : PackError

-- The last bytes of a number, before others, the most significant one first.
unfoldable pub to_bytes : ℕ → ℕ → ByteString → ByteString
to_bytes zero n rest = rest
to_bytes (suc k) n rest = to_bytes k (n / 256) (n % 256 ∷ rest)

-- A number that was read in part, continued by bytes.
unfoldable pub read_bytes : ℕ → ByteString → ℕ
read_bytes n [] = n
read_bytes n (b ∷ bs) = read_bytes (n * 256 + b) bs

unfoldable pub pack_uint : ℕ → ℕ → Either PackError ByteString
unfolding to_bytes
pack_uint high low =
    let n = high * 2 ^ 128 + low in
    if ltb n (2 ^ 256) then right (to_bytes 32 n []) else left out_of_range

unfoldable pub unpack_uint : ByteString → ℕ × ℕ
unfolding read_bytes
unpack_uint bytes = (read_bytes 0 bytes / 2 ^ 128, read_bytes 0 bytes % 2 ^ 128)

abbrev pub flag_init_code : String
flag_init_code = "0x7702000000000000000000000000000000000000"

module _ (hex : Hex) where
  -- getBytes(text ?? '0x')
  abbrev pub bytes_or_none : Option String → ByteString
  bytes_or_none none = []
  bytes_or_none (some text) = hex.get_bytes text

  abbrev pub pack_paymaster_data : String → ℕ → ℕ → Option String → Either PackError ByteString
  pack_paymaster_data paymaster verification post_op payload =
      flat_map (pack_uint verification post_op)
        (λ limits. right (hex.get_bytes paymaster ++ (limits ++ bytes_or_none payload)))

  abbrev pub pack_limits :
      String → Option ℕ → Option ℕ → Option String → Either PackError ByteString
  pack_limits paymaster (some verification) (some post_op) payload =
      pack_paymaster_data paymaster verification post_op payload
  pack_limits paymaster none post_op payload = left paymaster_with_no_gas_limits
  pack_limits paymaster (some verification) none payload = left paymaster_with_no_gas_limits

  abbrev pub pack_paymaster :
      Option String → Option ℕ → Option ℕ → Option String → Either PackError ByteString
  pack_paymaster none verification post_op payload = right []
  pack_paymaster (some paymaster) verification post_op payload =
      pack_limits paymaster verification post_op payload

  abbrev pub pack_init_code : Option String → Option String → ByteString
  pack_init_code none payload = []
  pack_init_code (some factory) payload =
      if is_marker (some factory)
      then hex.get_bytes flag_init_code ++ bytes_or_none payload
      else hex.get_bytes factory ++ bytes_or_none payload

  unfoldable pub pack_user_op : UserOperation → Either PackError PackedUserOperation
  pack_user_op op =
      flat_map
        (pack_paymaster op.paymaster op.paymaster_verification_gas_limit
          op.paymaster_post_op_gas_limit op.paymaster_data)
        (λ paymaster_and_data.
          flat_map (pack_uint op.verification_gas_limit op.call_gas_limit) (λ limits.
            flat_map (pack_uint op.max_priority_fee_per_gas op.max_fee_per_gas) (λ fees.
              right (record {
                sender = op.sender;
                nonce = op.nonce;
                init_code = pack_init_code op.factory op.factory_data;
                call_data = op.call_data;
                account_gas_limits = limits;
                pre_verification_gas = op.pre_verification_gas;
                gas_fees = fees;
                paymaster_and_data = paymaster_and_data;
                signature = op.signature;
              }))))

  pub record PaymasterFields : Type 0 where
    pub paymaster : String
    pub verification_gas : ℕ
    pub post_op_gas_limit : ℕ
    pub payload : String

  unfoldable pub unpack_paymaster_and_data : ByteString → Either PackError (Option PaymasterFields)
  unpack_paymaster_and_data bytes =
      if eqb (length bytes) 0
      then right none
      else if ltb (length bytes) 52
      then left invalid_paymaster_and_data
      else right (
          some (record {
            paymaster = hex.hexlify (slice 0 20 bytes);
            verification_gas = (unpack_uint (slice 20 52 bytes)).0;
            post_op_gas_limit = (unpack_uint (slice 20 52 bytes)).1;
            payload = hex.hexlify (drop 52 bytes);
          }))

  -- The parts of an operation that its fields say, before those of the factory and the paymaster.
  abbrev plain : PackedUserOperation → UserOperation
  plain p = record {
    sender = p.sender;
    nonce = p.nonce;
    factory = none;
    factory_data = none;
    call_data = p.call_data;
    call_gas_limit = (unpack_uint p.account_gas_limits).1;
    verification_gas_limit = (unpack_uint p.account_gas_limits).0;
    pre_verification_gas = p.pre_verification_gas;
    max_fee_per_gas = (unpack_uint p.gas_fees).1;
    max_priority_fee_per_gas = (unpack_uint p.gas_fees).0;
    paymaster = none;
    paymaster_verification_gas_limit = none;
    paymaster_post_op_gas_limit = none;
    paymaster_data = none;
    signature = p.signature;
    eip7702_auth = none;
  }

  abbrev pub with_factory : ByteString → UserOperation → UserOperation
  with_factory bytes op = if eqb (length bytes) 0 then op else record op {
    factory = some (hex.hexlify (slice 0 20 bytes));
    factory_data = some (hex.hexlify (drop 20 bytes));
  }

  abbrev pub with_paymaster : Option PaymasterFields → UserOperation → UserOperation
  with_paymaster none op = op
  with_paymaster (some fields) op = record op {
    paymaster = some fields.paymaster;
    paymaster_verification_gas_limit = some fields.verification_gas;
    paymaster_post_op_gas_limit = some fields.post_op_gas_limit;
    paymaster_data = some fields.payload;
  }

  unfoldable pub unpack_user_op : PackedUserOperation → Either PackError UserOperation
  unpack_user_op p =
      flat_map (unpack_paymaster_and_data p.paymaster_and_data)
        (λ fields. right (with_paymaster fields (with_factory p.init_code (plain p))))
