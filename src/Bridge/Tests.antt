-- ===== src/Bridge/Tests.antt =====
-- A core that runs, stops and is shut down once more, as the service reports it.
use nyanpasu_service.Prelude.{◌≡◌, refl, ◌↔◌, none, some, List, [], ◌∷◌}
use nyanpasu_service.Text.{Text, bytes}
use nyanpasu_service.Error.{ok, startup_failed, err}
use nyanpasu_service.State.{StopReason, reason_text, CoreState, initial_status, revision_id}
use nyanpasu_service.Manager.Apply.InPlace.{Change}
use nyanpasu_service.Manager.Apply.{conflict, apply_config}
use nyanpasu_service.Manager.Apply.Tests.{silent, up, applying, revision}
use nyanpasu_service.Bridge.Wire.{WireState, revision_info_id}
use nyanpasu_service.Bridge.Project.{map_core_state, map_revision, map_revision_id}
use nyanpasu_service.Bridge.Project.Faithful.{token_decides, Told, apply_config-Told}
use nyanpasu_service.Bridge.Events.{Change as BridgeChange, Event, reason_discrete, status_bridge}
use nyanpasu_service.Bridge.Events.Legacy.{IsHonest, status_bridge-IsHonest}

abbrev strip : Text → Text
strip url = url

abbrev shown : CoreState → BridgeChange Text
shown state = BridgeChange.manager (record (initial_status 0) { state = state }) none

abbrev changes : List (BridgeChange Text)
changes =
    shown (CoreState.starting 1)
    ∷ shown (CoreState.running 1 7)
    ∷ BridgeChange.requested (initial_status 0) (some (bytes "mihomo"))
    ∷ shown (CoreState.stopping 1)
    ∷ shown (CoreState.stopped (some StopReason.user))
    ∷ shown (CoreState.stopping 1)
    ∷ []

abbrev legacy : List (Event Text) → List WireState
legacy [] = []
legacy (Event.status_changed infos ∷ events) = legacy events
legacy (Event.state_changed state ∷ events) = state ∷ legacy events

legacy_states :
    legacy (status_bridge strip (initial_status 0) changes)
    ≡ (WireState.running ∷ WireState.stopped (some (bytes "stopped by user")) ∷ [])
unfolding status_bridge map_core_state reason_discrete reason_text
legacy_states = refl

status_bridge-IsHonest_example :
    IsHonest
      (map_core_state (CoreState.stopped none))
      none
      (status_bridge strip (initial_status 0) changes)
status_bridge-IsHonest_example = status_bridge-IsHonest strip (initial_status 0) changes

token_decides_example :
    (conflict
        (some (map_revision_id (revision_info_id (map_revision revision))))
        (revision_id (record revision { generation = 2 }))
      ≡ ok tt)
    ↔ (revision_id revision ≡ revision_id (record revision { generation = 2 }))
token_decides_example = token_decides revision (record revision { generation = 2 })

apply_config-Told_example :
    Told up (apply_config silent up (applying Change.reload (err (startup_failed (bytes "bad")))))
apply_config-Told_example =
    apply_config-Told silent up (applying Change.reload (err (startup_failed (bytes "bad"))))
