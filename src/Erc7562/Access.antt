-- ===== src/Erc7562/Access.antt =====
-- sim/erc7562-parser.ts: the rules on storage. The hash, the padding of an address to 32 bytes and its
-- spelling in hexadecimal are parameters. Addresses have at most 32 bytes and slots are hexadecimal numbers, as
-- a tracer gives them: then neither the padding nor `BigInt` throws.
pub mod Noting
pub mod Meaning
use transeptor_bundler.Prelude.{
  ℕ, ◌+◌, String, Bool, true, false, ◌&&◌, ◌||◌, not, ◌==◌, List, [], ◌∷◌, ◌++◌, any, includes, leb,
  ltb, Option, none, some, if◌then◌else◌,
}
use transeptor_bundler.Prelude.Dict.{Dict, get, put, keys}
use transeptor_bundler.Prelude.Text.{to_lower_case, starts_with, big_int, parse_int}
use transeptor_bundler.Types.{UserOperation, StorageEntry, root, slots, StorageMap}
use transeptor_bundler.Outcome.{right}
use transeptor_bundler.Erc7562.{
  AccessedSlots, Frame, factory, sto010, RunnerState, here, Checked, violates, is_entity_staked,
}
use transeptor_bundler.Erc7562.Rules.{is_set}

pub record Hashing : Type 0 where
  pub zero_pad_value : String → String
  pub hexlify : String → String
  pub keccak256 : String → String

-- slots ?? {}
abbrev pub slots_of {ℓ} : {V : Type ℓ} → Option (Dict V) → List String
slots_of none = []
slots_of (some d) = keys d

abbrev pub all_slots : AccessedSlots → List String
all_slots a =
    slots_of a.writes
    ++ (slots_of a.reads ++ (slots_of a.transient_writes ++ slots_of a.transient_reads))

-- slots?.[slot] == null
abbrev pub lacks_slot : Option (Dict ℕ) → String → Bool
lacks_slot none slot = true
lacks_slot (some d) slot = not (is_set (get slot d))

abbrev pub is_read_only : AccessedSlots → String → Bool
is_read_only a slot = lacks_slot a.writes slot && lacks_slot a.transient_writes slot

-- The entities of an operation whose address is set, in lower case.
abbrev lower_of : Option String → List String
lower_of none = []
lower_of (some a) = to_lower_case a ∷ []

abbrev pub entity_addresses : UserOperation → List String
entity_addresses op = to_lower_case op.sender ∷ (lower_of op.paymaster ++ lower_of op.factory)

-- Set.prototype.add, where the set is there or is made
abbrev add_to : Option (List String) → String → List String
add_to none hash = hash ∷ []
add_to (some hashes) hash = if includes hashes hash then hashes else hashes ++ (hash ∷ [])

abbrev pub with_slot : Option StorageEntry → String → StorageEntry
with_slot none slot = slots (put slot "" [])
with_slot (some (slots old)) slot = slots (put slot "" old)
with_slot (some (root r)) slot = root r

module _ (hashing : Hashing) where
  abbrev pub to_bytes32 : String → String
  to_bytes32 b = hashing.zero_pad_value (to_lower_case (hashing.hexlify b))

  -- One input of the hash, against the entities.
  unfoldable pub add_slots : String → List String → Dict (List String) → Dict (List String)
  add_slots input [] found = found
  add_slots input (address ∷ addresses) found = add_slots input addresses (
      if starts_with (to_bytes32 address) input
      then put address (add_to (get address found) (hashing.keccak256 input)) found
      else found)

  unfoldable pub parse_inputs : List String → List String → Dict (List String) → Dict (List String)
  unfolding add_slots
  parse_inputs addresses [] found = found
  parse_inputs addresses (input ∷ inputs) found =
      parse_inputs addresses inputs (add_slots input addresses found)

  unfoldable pub parse_entity_slots : UserOperation → List String → Dict (List String)
  unfolding parse_inputs
  parse_entity_slots op keccak = parse_inputs (entity_addresses op) keccak []

  abbrev near : ℕ → String → Bool
  near slot_n k = leb (big_int k) slot_n && ltb slot_n (big_int k + 128)

  abbrev any_near : String → Option (List String) → Bool
  any_near slot none = false
  any_near slot (some hashes) = any (near (big_int slot)) hashes

  unfoldable pub associated_with : String → String → Dict (List String) → Bool
  unfolding parse_int
  associated_with slot addr entity_slots =
      slot == to_lower_case (hashing.zero_pad_value addr) || any_near slot (get addr entity_slots)

  -- Whether the state may access a slot.
  unfoldable pub is_allowed : Dict (List String) → RunnerState → String → Bool
  is_allowed entity_slots s slot =
      let address = (here s).to in
      let is_entity_staked_res = is_entity_staked s.validation_result s.current_entity in
      let is_factory_staked = is_entity_staked s.validation_result factory in
      let is_sender_creation = is_set s.user_op.factory in
      let is_sender_internal = to_lower_case address == to_lower_case s.user_op.sender in
      let is_sender_associated =
        associated_with slot (to_lower_case s.user_op.sender) entity_slots in
      let is_entity_internal = to_lower_case address == to_lower_case s.current_entity_address in
      let is_entity_associated =
        associated_with slot (to_lower_case s.current_entity_address) entity_slots in
      let is_allowed_if_staked =
        is_entity_internal || is_entity_associated || is_read_only (here s).accessed_slots slot in
      is_sender_internal
      || (is_sender_associated && not is_sender_creation)
      || ((is_sender_associated && is_sender_creation) && is_factory_staked)
      || (is_allowed_if_staked && is_entity_staked_res)

  -- storageMap[address][slot] = ''
  unfoldable pub note_slot : String → RunnerState → RunnerState
  note_slot slot s = record s {
    storage_map = put (here s).to (with_slot (get (here s).to s.storage_map) slot) s.storage_map;
  }

  unfoldable pub check_slots : Dict (List String) → List String → RunnerState → Checked
  unfolding note_slot
  check_slots entity_slots [] s = right s
  check_slots entity_slots (slot ∷ rest) s =
      let noted = note_slot slot s in
      if not (is_allowed entity_slots noted slot)
      then violates sto010 (here s).to noted
      else check_slots entity_slots rest noted

  unfoldable pub check_storage : String → RunnerState → Checked
  unfolding parse_entity_slots check_slots
  check_storage entry_point_address s =
      if to_lower_case (here s).to == entry_point_address
      then right s
      else check_slots (parse_entity_slots s.user_op s.keccak) (all_slots (here s).accessed_slots) s
