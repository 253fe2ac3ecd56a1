-- ===== src/UserOps/Storage.antt =====
-- `mergeStorageMap`: a root wins over slots, and slots are united.
use transeptor_bundler.Prelude.{
  String, ◌≡◌, refl, ap, ◌∙◌, ◌==◌, eq_iff, [], ◌∷◌, Option, none, some, arith, if◌then◌else◌,
}
use transeptor_bundler.Prelude.Dict.{Dict, get, put, get-put}
use transeptor_bundler.Prelude.Dict.Laws.{Distinct, or_from, get-nil}
use transeptor_bundler.Types.{SlotMap, StorageEntry, root, slots, StorageMap}
use transeptor_bundler.UserOps.{merge_slots, merge_entry, merge_storage_map}

get-cons {ℓ} :
    {V : Type ℓ} (j k : String) (v : V) (d : Dict V)
    → get j ((k, v) ∷ d) ≡ (if k == j then some v else get j d)
unfolding get
get-cons j k v d = refl

-- The slots of a merge.
get-merge_slots :
    (slot : String) (old new : SlotMap)
    → Distinct new
    → get slot (merge_slots old new) ≡ or_from (get slot new) (get slot old)
unfolding merge_slots
get-merge_slots slot old [] h = rw (get-nil slot)
get-merge_slots slot old ((k, v) ∷ new) (h, u) =
    rw (get-merge_slots slot (put k v old) new u, get-put k slot v old, get-cons slot k v new)
      (ground (arith, eq_iff k slot))

abbrev pub merged_entry : Option StorageEntry → Option StorageEntry → Option StorageEntry
merged_entry old none = old
merged_entry old (some new) = some (merge_entry old new)

-- The merged map holds, under every address, the two entries of the address merged.
pub get-merge_storage_map :
    (addr : String) (merged validation : StorageMap)
    → Distinct validation
    → get addr (merge_storage_map merged validation)
      ≡ merged_entry (get addr merged) (get addr validation)
unfolding merge_storage_map
get-merge_storage_map addr merged [] h = rw (get-nil addr)
get-merge_storage_map addr merged ((k, e) ∷ rest) (h, u) =
    get-merge_storage_map addr (put k (merge_entry (get k merged) e) merged) rest u
    ∙ rw (get-put k addr (merge_entry (get k merged) e) merged, get-cons addr k e rest)
        (ground (arith, eq_iff k addr))

-- What is read of an address: its root if it has one, and else the value of a slot.
abbrev pub root_of : Option StorageEntry → Option String
root_of none = none
root_of (some (root r)) = some r
root_of (some (slots d)) = none

abbrev pub slot_of : String → Option StorageEntry → Option String
slot_of slot none = none
slot_of slot (some (root r)) = none
slot_of slot (some (slots d)) = get slot d

abbrev DistinctSlots : Option StorageEntry → Type 0
DistinctSlots none = Unit
DistinctSlots (some (root r)) = Unit
DistinctSlots (some (slots d)) = Distinct d

root_of-merged_entry :
    (old new : Option StorageEntry)
    → root_of (merged_entry old new) ≡ or_from (root_of new) (root_of old)
unfolding merge_entry
root_of-merged_entry old none = ground arith
root_of-merged_entry old (some (root r)) = refl
root_of-merged_entry none (some (slots d)) = refl
root_of-merged_entry (some (root r)) (some (slots d)) = refl
root_of-merged_entry (some (slots c)) (some (slots d)) = refl

-- Merging keeps the roots: under every address the merged map has the root of the validation if it
-- has one there, and else the root that was there; the validation's addresses are distinct.
pub root_of-merge_storage_map :
    (addr : String) (merged validation : StorageMap)
    → Distinct validation
    → root_of (get addr (merge_storage_map merged validation))
      ≡ or_from (root_of (get addr validation)) (root_of (get addr merged))
root_of-merge_storage_map addr merged validation h =
    ap root_of (get-merge_storage_map addr merged validation h)
    ∙ root_of-merged_entry (get addr merged) (get addr validation)

slot_of-merged_entry :
    (slot : String) (old new : Option StorageEntry)
    → root_of old ≡ none
    → root_of new ≡ none
    → DistinctSlots new
    → slot_of slot (merged_entry old new) ≡ or_from (slot_of slot new) (slot_of slot old)
unfolding merge_entry
slot_of-merged_entry slot old none r q d = refl
slot_of-merged_entry slot old (some (root x)) r q d = cc
slot_of-merged_entry slot none (some (slots c)) r q d =
    get-merge_slots slot [] c d ∙ rw (get-nil slot)
slot_of-merged_entry slot (some (root x)) (some (slots c)) r q d = cc
slot_of-merged_entry slot (some (slots b)) (some (slots c)) r q d = get-merge_slots slot b c d

-- Where neither map has a root, the merged map has every slot of both, with the validation's value if
-- it has one; the addresses of the validation are distinct, and so are its slots.
pub slot_of-merge_storage_map :
    (addr slot : String) (merged validation : StorageMap)
    → Distinct validation
    → root_of (get addr merged) ≡ none
    → root_of (get addr validation) ≡ none
    → DistinctSlots (get addr validation)
    → slot_of slot (get addr (merge_storage_map merged validation))
      ≡ or_from (slot_of slot (get addr validation)) (slot_of slot (get addr merged))
slot_of-merge_storage_map addr slot merged validation h r q d =
    ap (slot_of slot) (get-merge_storage_map addr merged validation h)
    ∙ slot_of-merged_entry slot (get addr merged) (get addr validation) r q d
