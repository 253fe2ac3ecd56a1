-- ===== src/Erc7562/Opcodes.antt =====
-- sim/evm-opcodes.ts and sim/erc7562-banned-opcodes.ts
use transeptor_bundler.Prelude.{
  ℕ, String, ◌≡◌, refl, List, [], ◌∷◌, map, filter, includes, eqb, Option, none, some,
  if◌then◌else◌,
}
use transeptor_bundler.Prelude.Dict.{Dict, keys}
use transeptor_bundler.Prelude.Text.{parse_int}

-- The entries of the enum EVMOpcodes.
abbrev evm_opcodes : Dict ℕ
evm_opcodes =
    ("ADDRESS", 0x30)
    ∷ ("BALANCE", 0x31)
    ∷ ("ORIGIN", 0x32)
    ∷ ("GASPRICE", 0x3a)
    ∷ ("BLOCKHASH", 0x40)
    ∷ ("COINBASE", 0x41)
    ∷ ("TIMESTAMP", 0x42)
    ∷ ("NUMBER", 0x43)
    ∷ ("DIFFICULTY", 0x44)
    ∷ ("GASLIMIT", 0x45)
    ∷ ("SELFBALANCE", 0x47)
    ∷ ("BASEFEE", 0x48)
    ∷ ("BLOBHASH", 0x49)
    ∷ ("BLOBBASEFEE", 0x4a)
    ∷ ("GAS", 0x5a)
    ∷ ("CREATE", 0xf0)
    ∷ ("SELFDESTRUCT", 0xff)
    ∷ ("EXTCODESIZE", 0x3b)
    ∷ ("EXTCODECOPY", 0x3c)
    ∷ ("EXTCODEHASH", 0x3f)
    ∷ ("CHAINID", 0x46)
    ∷ ("MLOAD", 0x51)
    ∷ ("MSTORE", 0x52)
    ∷ ("MSTORE8", 0x53)
    ∷ ("SLOAD", 0x54)
    ∷ ("SSTORE", 0x55)
    ∷ ("JUMPDEST", 0x5b)
    ∷ ("TLOAD", 0x5c)
    ∷ ("TSTORE", 0x5d)
    ∷ ("MCOPY", 0x5e)
    ∷ ("PUSH0", 0x5f)
    ∷ ("CALL", 0xf1)
    ∷ ("RETURN", 0xf3)
    ∷ ("DELEGATECALL", 0xf4)
    ∷ ("CREATE2", 0xf5)
    ∷ ("STATICCALL", 0xfa)
    ∷ ("REVERT", 0xfd)
    ∷ ("INVALID", 0xfe)
    ∷ []

find_name : ℕ → Dict ℕ → Option String
find_name value [] = none
find_name value ((name, v) ∷ entries) = if eqb v value then some name else find_name value entries

unfoldable pub get_opcode_name : ℕ → Option String
unfolding find_name
get_opcode_name value = find_name value evm_opcodes

abbrev pub banned_op_codes : List String
banned_op_codes =
    "BASEFEE" ∷ "BLOCKHASH" ∷ "COINBASE" ∷ "DIFFICULTY" ∷ "GAS" ∷ "GASLIMIT" ∷ "GASPRICE"
    ∷ "INVALID" ∷ "NUMBER" ∷ "ORIGIN" ∷ "PREVRANDAO" ∷ "RANDOM" ∷ "SELFDESTRUCT" ∷ "TIMESTAMP"
    ∷ "BLOBHASH" ∷ "BLOBBASEFEE" ∷ []

abbrev pub opcodes_only_in_staked_entities : List String
opcodes_only_in_staked_entities = "BALANCE" ∷ "SELFBALANCE" ∷ []

abbrev or_empty : Option String → String
or_empty none = ""
or_empty (some name) = name

-- getOpcodeName(parseInt(opcode)) ?? ''
unfoldable pub name_of_key : String → String
unfolding get_opcode_name
name_of_key key = elim (parse_int key) [ none ↦ "" | some value ↦ or_empty (get_opcode_name value) ]

-- The names of the opcodes of a call that stand in a list.
unfoldable pub used_of : List String → Dict ℕ → List String
unfolding name_of_key
used_of names opcodes = filter (λ name. includes names name) (map name_of_key (keys opcodes))

used_of_example :
    used_of banned_op_codes (("0x42", 1) ∷ ("0x55", 2) ∷ ("90", 1) ∷ []) ≡ "TIMESTAMP" ∷ "GAS" ∷ []
unfolding used_of parse_int
used_of_example = refl
