-- ===== src/Mempool/Entries.antt =====
-- Looking up an entry of a sound pool, and changing its status.
use transeptor_bundler.Prelude.{
  ℕ, String, ◌≡◌, refl, subst, Bool, false, ◌==◌, eq_iff, List, [], ◌∷◌, map, filter, includes,
  Option, none, some, arith, inl, inr, Bool-cases,
}
use transeptor_bundler.Prelude.Dict.{get, put, values}
use transeptor_bundler.Prelude.Dict.Laws.{Distinct, put-Distinct}
use transeptor_bundler.Types.{EntryStatus, MempoolEntry, StandardPool}
use transeptor_bundler.Mempool.{find_slot}
use transeptor_bundler.Mempool.Slots.{FreeOf, Keyed, OnePerSlot, IsSound, put-Keyed, same_some}

-- Changing the status of an entry in place.
set_status_none :
    (sender : String) (nonce : ℕ) (h : String) (e : MempoolEntry) (status : EntryStatus)
    (pool : StandardPool)
    → get h pool ≡ some e
    → find_slot sender nonce (values pool) ≡ none
    → find_slot sender nonce (values (put h (record e { status = status }) pool)) ≡ none
unfolding find_slot put get
set_status_none sender nonce h e status [] g f = cc
set_status_none sender nonce h e status ((j, w) ∷ pool) g f =
    ground (arith, set_status_none sender nonce h e status pool)

set_status-OnePerSlot :
    (h : String) (e : MempoolEntry) (status : EntryStatus) (pool : StandardPool)
    → get h pool ≡ some e
    → OnePerSlot pool
    → OnePerSlot (put h (record e { status = status }) pool)
unfolding put get
set_status-OnePerSlot h e status [] g u = cc
set_status-OnePerSlot h e status ((j, w) ∷ pool) g (f, u) = elim (Bool-cases (j == h)) [
  | inl hit ↦ rw hit (subst (λ x. FreeOf x pool) (same_some (rw hit at g)) f, u)
  | inr miss ↦
      let g' : get h pool ≡ some e = rw miss at g in
      rw miss (set_status_none _ _ h e status pool g' f, set_status-OnePerSlot h e status pool g' u)
]

pub get-Keyed :
    (h : String) (e : MempoolEntry) (pool : StandardPool)
    → Keyed pool
    → get h pool ≡ some e
    → e.user_op_hash ≡ h
unfolding get
get-Keyed h e [] k g = cc
get-Keyed h e ((j, w) ∷ pool) (k, ks) g = ground (arith, get-Keyed h e pool ks, eq_iff j h)

set_status-Keyed :
    (h : String) (e : MempoolEntry) (status : EntryStatus) (pool : StandardPool)
    → Keyed pool
    → e.user_op_hash ≡ h
    → Keyed (put h (record e { status = status }) pool)
set_status-Keyed h e status pool k same =
    rw (← same) (put-Keyed (record e { status = status }) pool k)

-- Changing the status of an entry that stands under a hash keeps the invariant.
pub set_status-IsSound :
    (h : String) (e : MempoolEntry) (status : EntryStatus) (pool : StandardPool)
    → IsSound pool
    → get h pool ≡ some e
    → IsSound (put h (record e { status = status }) pool)
set_status-IsSound h e status pool v g = record {
  keyed = set_status-Keyed h e status pool v.keyed (get-Keyed h e pool v.keyed g);
  distinct = put-Distinct h _ pool v.distinct;
  one_per_slot = set_status-OnePerSlot h e status pool g v.one_per_slot;
}

-- What is found by its slot stands under its own hash.
pub get-find_slot :
    (sender : String) (nonce : ℕ) (e : MempoolEntry) (pool : StandardPool)
    → Keyed pool
    → Distinct pool
    → find_slot sender nonce (values pool) ≡ some e
    → get e.user_op_hash pool ≡ some e
unfolding get find_slot
get-find_slot sender nonce e [] k d f = cc
get-find_slot sender nonce e ((j, w) ∷ pool) (k, ks) (d, ds) f =
    ground (arith, get-find_slot sender nonce e pool ks ds, eq_iff j e.user_op_hash)

abbrev pub hashes : List MempoolEntry → List String
hashes es = map (λ e. e.user_op_hash) es

abbrev pub holds_at : (MempoolEntry → Bool) → Option MempoolEntry → Bool
holds_at P none = false
holds_at P (some e) = P e

-- Whether a hash is among those of the entries with a property can be asked of the entry under it.
pub includes-filter :
    (P : MempoolEntry → Bool) (pool : StandardPool) (k : String)
    → Keyed pool
    → Distinct pool
    → includes (hashes (filter P (values pool))) k ≡ holds_at P (get k pool)
unfolding get
includes-filter P [] k u d = refl
includes-filter P ((j, w) ∷ pool) k (u, us) (d, ds) =
    ground (arith, includes-filter P pool k us ds, eq_iff j k)
