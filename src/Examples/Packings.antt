-- ===== src/Examples/Packings.antt =====
-- Tests of the contract's form of an operation.
use transeptor_bundler.Prelude.{ℕ, ◌≡◌, refl, ◌==◌, [], ◌∷◌, some, arith, if◌then◌else◌, eqb}
use transeptor_bundler.Types.{UserOperation}
use transeptor_bundler.Outcome.{right, flat_map}
use transeptor_bundler.UserOps.Packing.{ByteString, Hex, pack_user_op, unpack_user_op}
use transeptor_bundler.UserOps.Packing.Laws.{IsPackable, unpack_user_op-pack_user_op}
use transeptor_bundler.Examples.{op}

abbrev five : ℕ → ByteString → ByteString
five b rest = b ∷ b ∷ b ∷ b ∷ b ∷ rest

abbrev twenty : ℕ → ByteString
twenty b = five b (five b (five b (five b [])))

-- Two addresses, and the empty text.
abbrev hex : Hex
hex = record {
  get_bytes =
      λ text. if text == "0xB2" then twenty 178 else if text == "0xFA" then twenty 250 else [];
  hexlify = λ bytes. elim bytes [ [] ↦ "0x" | b ∷ bs ↦ if eqb b 178 then "0xB2" else "0xFA" ];
}

abbrev packable : UserOperation
packable = record op {
  factory = some "0xFA";
  factory_data = some "0x";
  paymaster_post_op_gas_limit = some 4;
  paymaster_data = some "0x";
}

packable-IsPackable : IsPackable hex packable
packable-IsPackable = record {
  verification = omega arith;
  call = omega arith;
  priority_fee = omega arith;
  max_fee = omega arith;
  factory = ((refl, refl), refl, ("0x", refl, refl));
  paymaster = ((refl, refl), (3, refl, omega arith), (4, refl, omega arith), ("0x", refl, refl));
}

unpack_user_op-pack_user_op_example :
    flat_map (pack_user_op hex packable) (unpack_user_op hex) ≡ right packable
unpack_user_op-pack_user_op_example = unpack_user_op-pack_user_op hex packable packable-IsPackable
