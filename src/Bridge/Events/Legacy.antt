-- ===== src/Bridge/Events/Legacy.antt =====
-- What the two-valued event reports beside the snapshots.
use nyanpasu_service.Prelude.{
  ◌≡◌, refl, Bool, true, false, ◌&&◌, Option, none, some, List, [], ◌∷◌, arith, Bool-cases, inl,
  inr,
}
use nyanpasu_service.Text.{Text}
use nyanpasu_service.State.{CoreState, CoreStatus}
use nyanpasu_service.Bridge.Wire.{WireState, CoreStateDetail, CoreInfos}
use nyanpasu_service.Bridge.Project.{map_core_state, map_state_detail, project_core_infos}
use nyanpasu_service.Bridge.Events.{
  same_ipc_state, is_passing, is_stopped, legacy_of, Change, Event, send, latest, bridge_from,
  status_bridge,
}

abbrev pub says_running : Option CoreStateDetail → Bool
says_running (some (CoreStateDetail.running epoch pid)) = true
says_running detail = false

-- What an event of the legacy state owes: it is not the state reported last, and it is running after
-- stopped only where the manager's state is `Running`.
abbrev pub Owed : WireState → WireState → Option CoreStateDetail → Type 0
Owed last state detail =
    (same_ipc_state last state ≡ false)
    × (is_stopped last ≡ true → is_stopped state ≡ false → says_running detail ≡ true)

-- Each legacy event directly follows a snapshot that has its state. The first argument is the state
-- reported last, the second the snapshot that stands directly in front.
abbrev pub IsHonest : {T : Type 0} → WireState → Option (CoreInfos T) → List (Event T) → Type 0
IsHonest last before [] = Unit
IsHonest last before (Event.status_changed infos ∷ events) = IsHonest last (some infos) events
IsHonest last none (Event.state_changed state ∷ events) = ⊥
IsHonest last (some infos) (Event.state_changed state ∷ events) =
    (infos.state ≡ state) × Owed last state infos.detail × IsHonest state none events

Reports : WireState → CoreState → Option WireState → Type 0
Reports last state none = Unit
Reports last state (some reported) =
    (map_core_state state ≡ reported) × Owed last reported (map_state_detail state)

resurrected :
    (last : WireState) (state : CoreState)
    → (is_passing state && is_stopped last) ≡ false
    → is_stopped last ≡ true
    → is_stopped (map_core_state state) ≡ false
    → says_running (map_state_detail state) ≡ true
unfolding is_passing map_core_state map_state_detail
resurrected last (CoreState.running epoch pid) p s r = refl
resurrected last (CoreState.switching from to) p s r = absurd (ground (arith, p, s))
resurrected last (CoreState.stopping epoch) p s r = absurd (ground (arith, p, s))
resurrected last (CoreState.starting epoch) p s r = cc
resurrected last (CoreState.restarting epoch attempt) p s r = cc
resurrected last (CoreState.stopped reason) p s r = cc

legacy_of-Reports :
    (last : WireState) (state : CoreState) → Reports last state (legacy_of last state)
unfolding legacy_of Reports
legacy_of-Reports last state = elim (Bool-cases (is_passing state && is_stopped last)) [
  | inl t ↦ rw t tt
  | inr t ↦ elim (Bool-cases (same_ipc_state last (map_core_state state))) [
    | inl u ↦ rw (t, u) tt
    | inr u ↦ rw (t, u) (refl, (u, resurrected last state t))
  ]
]

module _ {T : Type 0} (strip : Text → Text) where
  send-IsHonest :
      (last : WireState) (status : CoreStatus) (request : Option T) (reported : Option WireState)
      (events : List (Event T))
      → Reports last status.state reported
      → ((before : Option (CoreInfos T)) → IsHonest (latest last reported) before events)
      → IsHonest last (some (project_core_infos strip status request)) (send reported events)
  unfolding send latest Reports project_core_infos
  send-IsHonest last status request none events h rest = rest _
  send-IsHonest last status request (some state) events h rest = (h.0, h.1, rest none)

  bridge_from-IsHonest :
      (last : WireState) (changes : List (Change T)) (before : Option (CoreInfos T))
      → IsHonest last before (bridge_from strip last changes)
  unfolding bridge_from
  bridge_from-IsHonest last [] before = tt
  bridge_from-IsHonest last (Change.manager raw request ∷ changes) before =
      send-IsHonest last raw request (legacy_of last raw.state) _ (legacy_of-Reports last raw.state)
        (bridge_from-IsHonest (latest last (legacy_of last raw.state)) changes)
  bridge_from-IsHonest last (Change.requested raw request ∷ changes) before =
      bridge_from-IsHonest last changes _

  -- Over any sequence of changes, whatever values are read on them, each event of the two-valued
  -- state directly follows a snapshot that has this state, differs from the state reported before it
  -- (at first, that of the manager when the bridge begins), and reports running after stopped only
  -- where that snapshot's detail is Running: a core that is stopping or being switched is not
  -- reported as risen.
  pub status_bridge-IsHonest :
      (raw : CoreStatus) (changes : List (Change T))
      → IsHonest (map_core_state raw.state) none (status_bridge strip raw changes)
  unfolding status_bridge
  status_bridge-IsHonest raw changes = bridge_from-IsHonest (map_core_state raw.state) changes none
