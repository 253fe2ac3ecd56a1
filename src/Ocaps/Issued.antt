-- ===== src/Ocaps/Issued.antt =====
-- Which capabilities the service verifies.
use transeptor_bundler.Prelude.{
  String, ◌≡◌, refl, ap, ◌∙◌, true, false, ◌==◌, eq_refl, List, [], ◌∷◌, map, some,
}
use transeptor_bundler.Prelude.Text.{to_lower_case}
use transeptor_bundler.Ocaps.{
  StateCapability, CapabilityRequest, Capability, sorted_state_operations, sorted_capability,
  Encoding, encode_state_capability, Signing, get_state_capability_hash, issue_state_capability,
  verify_state_capability,
}

-- What the library's wallet promises: a signature is not empty, and the address is recovered from it.
pub record IsScheme (signing : Signing) : Type 0 where
  pub not_empty : (m : String) → (signing.sign_message m == "0x") ≡ false
  pub recovers :
      (m : String) → signing.verify_message m (signing.sign_message m) ≡ some signing.address
  pub valid : signing.is_valid_address signing.address ≡ true

-- The same capabilities, with the operations of each in any order.
abbrev pub SameOperations : List StateCapability → List StateCapability → Type 0
SameOperations [] [] = Unit
SameOperations (c ∷ cs) (d ∷ ds) =
    (c.key ≡ d.key)
    × (sorted_state_operations c.operations ≡ sorted_state_operations d.operations)
    × SameOperations cs ds
SameOperations _ _ = ⊥

map-sorted_capability :
    (cs ds : List StateCapability)
    → SameOperations cs ds
    → map sorted_capability cs ≡ map sorted_capability ds
map-sorted_capability [] [] h = refl
map-sorted_capability [] (d ∷ ds) h = elim h [ ]
map-sorted_capability (c ∷ cs) [] h = elim h [ ]
map-sorted_capability (c ∷ cs) (d ∷ ds) (key, operations, rest) =
    rw (key, operations, map-sorted_capability cs ds rest) refl

verified :
    (signing : Signing) (cap : Capability)
    → (cap.signature == "0x") ≡ false
    → signing.is_valid_address cap.issuer ≡ true
    → signing.verify_message (get_state_capability_hash signing cap) cap.signature
      ≡ some signing.address
    → verify_state_capability signing cap ≡ true
unfolding verify_state_capability
verified signing cap not_empty valid recovers =
    rw (not_empty, valid, recovers, eq_refl (to_lower_case signing.address)) refl

-- A capability that was issued is verified, also after its operations were put in another order.
pub verify_state_capability-issue_state_capability :
    (signing : Signing) (client_version : String) (request : CapabilityRequest)
    (ocaps : List StateCapability)
    → IsScheme signing
    → SameOperations ocaps request.ocaps
    → verify_state_capability signing
        (record (issue_state_capability signing client_version request) {
          request = record request { ocaps = ocaps };
        })
      ≡ true
unfolding issue_state_capability encode_state_capability
verify_state_capability-issue_state_capability signing version request ocaps scheme same =
    let encoding : List StateCapability → Encoding = λ operations. record {
      issuer = signing.address;
      client_version = version;
      module_name = request.module_name;
      salt = request.salt;
      operations = operations;
    } in
    let signature =
      signing.sign_message (signing.hash (encoding (map sorted_capability request.ocaps))) in
    verified signing _ (scheme.not_empty _) scheme.valid (
      ap (λ operations. signing.verify_message (signing.hash (encoding operations)) signature)
        (map-sorted_capability ocaps request.ocaps same)
      ∙ scheme.recovers (signing.hash (encoding (map sorted_capability request.ocaps))))
