-- ===== src/Ocaps.antt =====
-- ocaps/capability-service.ts, ocaps/capability-helper.ts and ocaps/capability-registry.ts: the capabilities that
-- open the store. The signature scheme, the hash of an encoding and the test of an address are parameters.
pub mod Issued
use transeptor_bundler.Prelude.{
  ℕ, String, ◌≡◌, Bool, true, false, not, ◌==◌, List, [], ◌∷◌, ◌++◌, map, filter, Option, none,
  some, if◌then◌else◌,
}
use transeptor_bundler.Prelude.Text.{to_lower_case}
use transeptor_bundler.State.{StateKey}

pub data StateOperations : Type 0 where
  read write : StateOperations

pub record StateCapability : Type 0 where
  pub key : StateKey
  pub operations : List StateOperations

pub record CapabilityRequest : Type 0 where
  pub module_name : String
  pub ocaps : List StateCapability
  pub salt : String

pub record Capability : Type 0 where
  pub issuer : String
  pub client_version : String
  pub request : CapabilityRequest
  pub signature : String

abbrev pub is_read : StateOperations → Bool
is_read read = true
is_read write = false

-- 'read' comes before 'write'.
unfoldable pub sorted_state_operations : List StateOperations → List StateOperations
sorted_state_operations operations =
    filter is_read operations ++ filter (λ o. not (is_read o)) operations

-- What is encoded of a capability, with the operations in order.
pub record Encoding : Type 0 where
  pub issuer : String
  pub client_version : String
  pub module_name : String
  pub salt : String
  pub operations : List StateCapability

abbrev pub sorted_capability : StateCapability → StateCapability
sorted_capability cap = record {
  key = cap.key;
  operations = sorted_state_operations cap.operations;
}

unfoldable pub encode_state_capability : Capability → Encoding
encode_state_capability cap = record {
  issuer = cap.issuer;
  client_version = cap.client_version;
  module_name = cap.request.module_name;
  salt = cap.request.salt;
  operations = map sorted_capability cap.request.ocaps;
}

-- The wallet of the issuer; `verify_message` gives the address that signed, or fails.
pub record Signing : Type 0 where
  pub address : String
  pub hash : Encoding → String
  pub sign_message : String → String
  pub verify_message : String → String → Option String
  pub is_valid_address : String → Bool

module _ (signing : Signing) where
  abbrev pub get_state_capability_hash : Capability → String
  get_state_capability_hash cap = signing.hash (encode_state_capability cap)

  abbrev unsigned : String → CapabilityRequest → Capability
  unsigned client_version request = record {
    issuer = signing.address;
    client_version = client_version;
    request = request;
    signature = "0x";
  }

  unfoldable pub issue_state_capability : String → CapabilityRequest → Capability
  issue_state_capability client_version request = record (unsigned client_version request) {
    signature = signing.sign_message (get_state_capability_hash (unsigned client_version request));
  }

  abbrev pub is_issuer : Option String → Bool
  is_issuer none = false
  is_issuer (some recovered) = to_lower_case recovered == to_lower_case signing.address

  unfoldable pub verify_state_capability : Capability → Bool
  verify_state_capability cap =
      if cap.signature == "0x"
      then false
      else if not (signing.is_valid_address cap.issuer)
      then false
      else is_issuer (signing.verify_message (get_state_capability_hash cap) cap.signature)

abbrev pub reads_and_writes : StateKey → StateCapability
reads_and_writes key = record { key = key; operations = read ∷ write ∷ [] }

-- STATE_CAPABILITY_REGISTRY
abbrev pub state_capability_registry : List (String × List StateCapability)
state_capability_registry =
    (
      "reputation-manager",
      reads_and_writes StateKey.reputation_entries
          ∷ reads_and_writes StateKey.white_list
          ∷ reads_and_writes StateKey.black_list
          ∷ [],
    )
    ∷ ("deposit-manager", record { key = StateKey.standard_pool; operations = read ∷ [] } ∷ [])
    ∷ (
      "mempool-manager",
      reads_and_writes StateKey.standard_pool ∷ reads_and_writes StateKey.mempool_entry_count ∷ [],
    )
    ∷ ("bundle-manager", record { key = StateKey.bundle_txs; operations = write ∷ [] } ∷ [])
    ∷ []
