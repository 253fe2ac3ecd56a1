-- ===== src/Examples/Store.antt =====
-- Tests of the state service.
use transeptor_bundler.Prelude.{◌≡◌, refl, Bool, true, false, [], ◌∷◌, some, String, ◌==◌}
use transeptor_bundler.State.{
  State, StateKey, Partial, empty, init, pick, keys_of, assign, apply_update, update_state,
  get_state, granted,
}
use transeptor_bundler.State.Laws.{get_state-update_state}

-- The holder of the right capability.
abbrev verify : String → Bool
verify cap = cap == "reputation"

abbrev ban : Partial → Partial
ban cur = record empty { black_list = some ("0xa1" ∷ []) }

abbrev banned : State
banned = record init { black_list = "0xa1" ∷ [] }

updated :
    update_state verify "reputation" (StateKey.black_list ∷ []) ban init ≡ granted (true, banned)
unfolding update_state apply_update pick keys_of assign
updated = refl

get_state-update_state_example :
    get_state verify "reputation" (StateKey.black_list ∷ []) banned
    ≡ granted (ban (pick (StateKey.black_list ∷ []) init))
get_state-update_state_example =
    get_state-update_state verify "reputation" (StateKey.black_list ∷ []) ban init banned updated

-- A callback that returns another key than it was given is refused.
refused : (apply_update (StateKey.white_list ∷ []) ban init).0 ≡ false
unfolding apply_update pick keys_of
refused = refl
