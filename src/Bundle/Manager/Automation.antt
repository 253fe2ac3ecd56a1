-- ===== src/Bundle/Manager/Automation.antt =====
-- bundle/bundle-manager.ts: the mode of the manager and the timer of the automatic mode. The timers of
-- the language are numbered, and the ones that run are listed.
use transeptor_bundler.Prelude.{
  ℕ, ◌+◌, ◌≡◌, refl, ap, ◌∙◌, Bool, true, false, List, [], ◌∷◌, eqb, Option, none, some, arith,
  if◌then◌else◌,
}

pub data BundleMode : Type 0 where
  auto manual : BundleMode

pub record Automation : Type 0 where
  pub bundle_mode : BundleMode
  pub interval : Option ℕ
  pub running : List ℕ
  pub next_timer : ℕ

clear_interval : ℕ → List ℕ → List ℕ
clear_interval timer [] = []
clear_interval timer (t ∷ ts) =
    let rest = clear_interval timer ts in if eqb timer t then rest else t ∷ rest

stop_timer : Option ℕ → Automation → Automation
unfolding clear_interval
stop_timer none a = a
stop_timer (some timer) a = record a { interval = none; running = clear_interval timer a.running }

pub stop_auto_bundler : Automation → Automation
unfolding stop_timer
stop_auto_bundler a = stop_timer a.interval a

-- setInterval
set_interval : Automation → Automation
set_interval a = record a {
  interval = some a.next_timer;
  running = a.next_timer ∷ a.running;
  next_timer = a.next_timer + 1;
}

pub start_auto_bundler : Automation → Automation
unfolding stop_auto_bundler set_interval
start_auto_bundler a = set_interval (stop_auto_bundler a)

switch : BundleMode → Automation → Automation
unfolding start_auto_bundler stop_auto_bundler
switch auto a = start_auto_bundler a
switch manual a = stop_auto_bundler a

pub set_bundling_mode : BundleMode → Automation → Automation
unfolding switch
set_bundling_mode mode a = switch mode (record a { bundle_mode = mode })

initial_mode : Bool → BundleMode
initial_mode is_auto_bundle = if is_auto_bundle then auto else manual

start_if_auto : BundleMode → Automation → Automation
unfolding start_auto_bundler
start_if_auto auto a = start_auto_bundler a
start_if_auto manual a = a

-- createBundleManager
pub create_bundle_manager : Bool → Automation
unfolding initial_mode start_if_auto
create_bundle_manager is_auto_bundle = start_if_auto (initial_mode is_auto_bundle) (record {
  bundle_mode = initial_mode is_auto_bundle;
  interval = none;
  running = [];
  next_timer = 0;
})

pub set_modes : List BundleMode → Automation → Automation
unfolding set_bundling_mode
set_modes [] a = a
set_modes (mode ∷ modes) a = set_modes modes (set_bundling_mode mode a)

-- In the automatic mode exactly the remembered timer runs, in the manual one none is remembered or runs.
abbrev InStep : BundleMode → Option ℕ → List ℕ → Type 0
InStep auto none running = ⊥
InStep auto (some timer) running = running ≡ timer ∷ []
InStep manual none running = running ≡ []
InStep manual (some timer) running = ⊥

abbrev pub IsInStep : Automation → Type 0
IsInStep a = InStep a.bundle_mode a.interval a.running

cleared : (timer : ℕ) → clear_interval timer (timer ∷ []) ≡ []
unfolding clear_interval
cleared timer = ground arith

set_mode-IsInStep :
    (mode old : BundleMode) (interval : Option ℕ) (running : List ℕ) (next : ℕ)
    → InStep old interval running
    → IsInStep (
        set_bundling_mode mode
          (record { bundle_mode = old; interval = interval; running = running; next_timer = next }))
unfolding set_bundling_mode switch start_auto_bundler set_interval stop_auto_bundler stop_timer
set_mode-IsInStep mode auto none running next v = absurd v
set_mode-IsInStep auto auto (some timer) running next v =
    ap (λ ts. next ∷ ts) (ap (clear_interval timer) v ∙ cleared timer)
set_mode-IsInStep manual auto (some timer) running next v =
    ap (clear_interval timer) v ∙ cleared timer
set_mode-IsInStep auto manual none running next v = ap (λ ts. next ∷ ts) v
set_mode-IsInStep manual manual none running next v = v
set_mode-IsInStep mode manual (some timer) running next v = absurd v

set_modes-IsInStep :
    (modes : List BundleMode) (a : Automation) → IsInStep a → IsInStep (set_modes modes a)
unfolding set_modes
set_modes-IsInStep [] a v = v
set_modes-IsInStep (mode ∷ modes) a v =
    set_modes-IsInStep modes _
      (set_mode-IsInStep mode a.bundle_mode a.interval a.running a.next_timer v)

create_bundle_manager-IsInStep :
    (is_auto_bundle : Bool) → IsInStep (create_bundle_manager is_auto_bundle)
unfolding create_bundle_manager initial_mode start_if_auto start_auto_bundler set_interval
    stop_auto_bundler stop_timer
create_bundle_manager-IsInStep true = refl
create_bundle_manager-IsInStep false = refl

-- However often the mode of a new manager is set, a timer runs exactly in the automatic mode, and then
-- it is one, the one that the manager remembers and can clear.
pub set_modes-create_bundle_manager-IsInStep :
    (is_auto_bundle : Bool) (modes : List BundleMode)
    → IsInStep (set_modes modes (create_bundle_manager is_auto_bundle))
set_modes-create_bundle_manager-IsInStep is_auto_bundle modes =
    set_modes-IsInStep modes _ (create_bundle_manager-IsInStep is_auto_bundle)
