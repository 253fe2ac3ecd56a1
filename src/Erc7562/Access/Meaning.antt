-- ===== src/Erc7562/Access/Meaning.antt =====
-- What the check of the storage rules decides.
use transeptor_bundler.Prelude.{
  String, ◌≡◌, ◌⊎◌, inl, inr, refl, Bool, true, false, ◌&&◌, ◌||◌, not, ◌==◌, List, [], ◌∷◌, ◌++◌,
  All, All-append, All-split, arith, Bool-cases,
}
use transeptor_bundler.Prelude.Dict.{Dict}
use transeptor_bundler.Prelude.Text.{to_lower_case}
use transeptor_bundler.Erc7562.{factory, AccessedSlots, RunnerState, here, is_entity_staked}
use transeptor_bundler.Erc7562.Rules.{is_set}
use transeptor_bundler.Erc7562.Rules.Meaning.{Decides, Decides-map}
use transeptor_bundler.Erc7562.Access.{
  Hashing, all_slots, is_read_only, associated_with, is_allowed, note_slot, check_slots,
  check_storage, parse_entity_slots, slots_of,
}
use transeptor_bundler.Erc7562.Access.Noting.{note_slots, noted, HasNoted, noted-HasNoted}

-- The verdict on a slot, over the answers to the single questions.
abbrev Verdict :
    (internal associated created factory_staked : Bool)
    (entity_internal entity_associated read_only staked : Bool)
    → Type 0
Verdict i a c f ei ea ro st =
    (i ≡ true)
    ⊎ (((a ≡ true) × (c ≡ true → f ≡ true))
        ⊎ ((st ≡ true) × ((ei ≡ true) ⊎ ((ea ≡ true) ⊎ (ro ≡ true)))))

verdict_true :
    (i a c f ei ea ro st : Bool)
    → i || (a && not c) || ((a && c) && f) || ((ei || ea || ro) && st) ≡ true
    → Verdict i a c f ei ea ro st
verdict_true true a c f ei ea ro st h = inl refl
verdict_true false true false f ei ea ro st h = inr (inl (refl, λ k. cc))
verdict_true false true true true ei ea ro st h = inr (inl (refl, λ k. refl))
verdict_true false true true false true ea ro true h = inr (inr (refl, inl refl))
verdict_true false true true false false true ro true h = inr (inr (refl, inr (inl refl)))
verdict_true false true true false false false true true h = inr (inr (refl, inr (inr refl)))
verdict_true false true true false ei ea ro st h = absurd (ground arith)
verdict_true false false c f true ea ro true h = inr (inr (refl, inl refl))
verdict_true false false c f false true ro true h = inr (inr (refl, inr (inl refl)))
verdict_true false false c f false false true true h = inr (inr (refl, inr (inr refl)))
verdict_true false false c f ei ea ro st h = absurd (ground arith)

verdict_of :
    (i a c f ei ea ro st : Bool)
    → Verdict i a c f ei ea ro st
    → i || (a && not c) || ((a && c) && f) || ((ei || ea || ro) && st) ≡ true
verdict_of i a c f ei ea ro st (inl h) = ground arith
verdict_of i a c f ei ea ro st (inr (inl (h, k))) = elim (Bool-cases c) [
  | inl created ↦ let staked = k created in ground arith
  | inr old ↦ ground arith
]
verdict_of i a c f ei ea ro st (inr (inr (h, inl k))) = ground arith
verdict_of i a c f ei ea ro st (inr (inr (h, inr (inl k)))) = ground arith
verdict_of i a c f ei ea ro st (inr (inr (h, inr (inr k)))) = ground arith

module _ (hashing : Hashing) where
  -- The rules STO-010, STO-021, STO-022 and STO-031 to STO-033, for one slot of the called contract.
  abbrev pub SlotAllowed : Dict (List String) → RunnerState → String → Type 0
  SlotAllowed entity_slots s slot =
      ((to_lower_case (here s).to == to_lower_case s.user_op.sender) ≡ true)
      ⊎ (((associated_with hashing slot (to_lower_case s.user_op.sender) entity_slots ≡ true)
            × (is_set s.user_op.factory ≡ true
                → is_entity_staked s.validation_result factory ≡ true))
          ⊎ ((is_entity_staked s.validation_result s.current_entity ≡ true)
              × (((to_lower_case (here s).to == to_lower_case s.current_entity_address) ≡ true)
                  ⊎ ((associated_with hashing slot (to_lower_case s.current_entity_address)
                          entity_slots
                        ≡ true)
                      ⊎ (is_read_only (here s).accessed_slots slot ≡ true)))))

  -- The rules, for each of the slots that a call writes or reads, for good or for the transaction.
  abbrev pub StorageAllowed : String → RunnerState → Type 0
  StorageAllowed entry_point_address s =
      (to_lower_case (here s).to == entry_point_address) ≡ false
      → (let P = SlotAllowed (parse_entity_slots hashing s.user_op s.keccak) s in
          All P (slots_of (here s).accessed_slots.writes)
          × All P (slots_of (here s).accessed_slots.reads)
          × All P (slots_of (here s).accessed_slots.transient_writes)
          × All P (slots_of (here s).accessed_slots.transient_reads))

  is_allowed_iff :
      (entity_slots : Dict (List String)) (s : RunnerState) (slot : String)
      → (is_allowed hashing entity_slots s slot ≡ true → SlotAllowed entity_slots s slot)
        × (SlotAllowed entity_slots s slot → is_allowed hashing entity_slots s slot ≡ true)
  unfolding is_allowed
  is_allowed_iff entity_slots s slot =
      let address = to_lower_case (here s).to in
      let associated =
        λ (a : String). associated_with hashing slot (to_lower_case a) entity_slots in
      (
        verdict_true (address == to_lower_case s.user_op.sender) (associated s.user_op.sender)
            (is_set s.user_op.factory) (is_entity_staked s.validation_result factory)
            (address == to_lower_case s.current_entity_address)
            (associated s.current_entity_address) (is_read_only (here s).accessed_slots slot)
            (is_entity_staked s.validation_result s.current_entity),
        verdict_of (address == to_lower_case s.user_op.sender) (associated s.user_op.sender)
            (is_set s.user_op.factory) (is_entity_staked s.validation_result factory)
            (address == to_lower_case s.current_entity_address)
            (associated s.current_entity_address) (is_read_only (here s).accessed_slots slot)
            (is_entity_staked s.validation_result s.current_entity),
      )

  same_rules :
      (entity_slots : Dict (List String)) (slot : String) (rest : List String) (s : RunnerState)
      → (All (SlotAllowed entity_slots (note_slot hashing slot s)) rest
          → All (SlotAllowed entity_slots s) rest)
        × (All (SlotAllowed entity_slots s) rest
            → All (SlotAllowed entity_slots (note_slot hashing slot s)) rest)
  unfolding note_slot
  same_rules entity_slots slot [] s = ((λ h. h), λ h. h)
  same_rules entity_slots slot (x ∷ rest) s =
      let (there, back) = same_rules entity_slots slot rest s in
      ((λ h. (h.0, there h.1)), λ h. (h.0, back h.1))

  -- All four lists are examined.
  each_list :
      (P : String → Type 0) (a : AccessedSlots)
      → (All P (all_slots a)
          → All P (slots_of a.writes)
            × All P (slots_of a.reads)
            × All P (slots_of a.transient_writes)
            × All P (slots_of a.transient_reads))
        × (All P (slots_of a.writes)
              × All P (slots_of a.reads)
              × All P (slots_of a.transient_writes)
              × All P (slots_of a.transient_reads)
            → All P (all_slots a))
  each_list P a =
      let w = slots_of a.writes in
      let r = slots_of a.reads in
      let tw = slots_of a.transient_writes in
      let tr = slots_of a.transient_reads in
      (
        (λ h.
            let (hw, h1) = All-split P w (r ++ (tw ++ tr)) h in
            let (hr, h2) = All-split P r (tw ++ tr) h1 in
            let (htw, htr) = All-split P tw tr h2 in (hw, hr, htw, htr)),
        λ (hw, hr, htw, htr).
            All-append P w (r ++ (tw ++ tr)) hw
              (All-append P r (tw ++ tr) hr (All-append P tw tr htw htr)),
      )

  check_slots-Decides :
      (entity_slots : Dict (List String)) (slots : List String) (s : RunnerState)
      → Decides
          (check_slots hashing entity_slots slots s)
          (note_slots hashing slots s)
          (All (SlotAllowed entity_slots s) slots)
  unfolding check_slots note_slot is_allowed
  check_slots-Decides entity_slots [] s = inl (refl, tt)
  check_slots-Decides entity_slots (slot ∷ rest) s =
      elim (Bool-cases (is_allowed hashing entity_slots (note_slot hashing slot s) slot)) [
        | inl fine ↦ rw fine (
            Decides-map _ _
              (λ h. (
                (is_allowed_iff entity_slots s slot).0 fine,
                (same_rules entity_slots slot rest s).0 h,
              ))
              (λ h. (same_rules entity_slots slot rest s).1 h.1)
              (check_slots-Decides entity_slots rest (note_slot hashing slot s)))
        | inr bad ↦
            rw bad
              (inr ((_, refl), λ h. absurd_of bad ((is_allowed_iff entity_slots s slot).1 h.0)))
      ]
    where
      absurd_of : {b : Bool} → b ≡ false → b ≡ true → ⊥
      absurd_of p q = cc

  -- The test of the storage passes exactly if each slot that the call accesses outside the entry point may
  -- be accessed: the contract is the sender itself; or the slot is associated with the sender, and no
  -- factory is given or it is staked; or the entity is staked and the slot is its own, is
  -- associated with it or is only read. A state that passes differs only in its storage map, where the
  -- accessed slots of a call outside the entry point stand with an empty value under the called
  -- contract, unless a root stands there, and every other value is as before.
  pub check_storage-Decides :
      (entry_point_address : String) (s : RunnerState)
      → Decides
          (check_storage hashing entry_point_address s)
          (noted hashing entry_point_address s)
          (StorageAllowed entry_point_address s)
        × HasNoted entry_point_address s (noted hashing entry_point_address s)
  unfolding check_storage
  check_storage-Decides entry_point_address s = (
    elim (Bool-cases (to_lower_case (here s).to == entry_point_address)) [
      | inl inside ↦ rw inside (inl (refl, λ h. cc))
      | inr outside ↦ rw outside (
          Decides-map _ _ (λ r h. (each_list _ (here s).accessed_slots).0 r)
            (λ f. (each_list _ (here s).accessed_slots).1 (f refl))
            (check_slots-Decides _ (all_slots (here s).accessed_slots) s))
    ],
    noted-HasNoted hashing entry_point_address s,
  )
