-- ===== src/Bridge/Events.antt =====
-- The events that the service sends: `status_bridge` of manager_bridge.rs
-- (crates/nyanpasu-service-runtime/src/server) over the changes that it observes, in their order.
pub mod Legacy
use mathlib.Core.Logic.{ite}
use native.Mathlib.Decide.{ℕ_discrete}
use nyanpasu_service.Prelude.{
  Bool, true, false, ◌&&◌, Option, none, some, List, [], ◌∷◌, if◌then◌else◌,
}
use nyanpasu_service.Text.{Text}
use nyanpasu_service.State.{CoreState, CoreStatus}
use nyanpasu_service.Bridge.Wire.{WireState, CoreInfos}
use nyanpasu_service.Bridge.Project.{map_core_state, project_core_infos}

unfoldable pub reason_discrete : Discrete (Option Text)
reason_discrete = hlevel ℕ_discrete

pub same_ipc_state : WireState → WireState → Bool
same_ipc_state WireState.running WireState.running = true
same_ipc_state (WireState.stopped previous) (WireState.stopped next) =
    ite (reason_discrete previous next) true false
same_ipc_state WireState.running (WireState.stopped next) = false
same_ipc_state (WireState.stopped previous) WireState.running = false

-- `Stopping` or `Switching`
is_passing : CoreState → Bool
is_passing (CoreState.stopping epoch) = true
is_passing (CoreState.switching from to) = true
is_passing state = false

abbrev pub is_stopped : WireState → Bool
is_stopped WireState.running = false
is_stopped (WireState.stopped reason) = true

-- The guards of the legacy event: what it reports, if it is sent.
legacy_of : WireState → CoreState → Option WireState
unfolding same_ipc_state is_passing
legacy_of last state =
    if is_passing state && is_stopped last
    then none
    else if same_ipc_state last (map_core_state state)
    then none
    else some (map_core_state state)

-- Which channel woke the loop, and what the arm then reads from both: the snapshot of the manager
-- and the requested core. The values may be newer than the change that woke it.
pub data Change (T : Type 0) : Type 0 where
  manager : CoreStatus → Option T → Change T
  requested : CoreStatus → Option T → Change T

-- `new_core_status_changed` and `new_core_state_changed`
pub data Event (T : Type 0) : Type 0 where
  status_changed : CoreInfos T → Event T
  state_changed : WireState → Event T

latest : WireState → Option WireState → WireState
latest last none = last
latest last (some state) = state

module _ {T : Type 0} where
  send : Option WireState → List (Event T) → List (Event T)
  send none events = events
  send (some state) events = Event.state_changed state ∷ events

  -- The loop, from the last state that was reported.
  bridge_from : (Text → Text) → WireState → List (Change T) → List (Event T)
  unfolding legacy_of send latest
  bridge_from strip last [] = []
  bridge_from strip last (Change.manager raw request ∷ changes) =
      let reported = legacy_of last raw.state in
      Event.status_changed (project_core_infos strip raw request)
      ∷ send reported (bridge_from strip (latest last reported) changes)
  bridge_from strip last (Change.requested raw request ∷ changes) =
      Event.status_changed (project_core_infos strip raw request) ∷ bridge_from strip last changes

  -- `status_bridge`, from the snapshot that it reads first.
  unfoldable pub status_bridge : (Text → Text) → CoreStatus → List (Change T) → List (Event T)
  unfolding bridge_from
  status_bridge strip raw changes = bridge_from strip (map_core_state raw.state) changes
