-- ===== src/Manager/State/Lookups.antt =====
-- core/output-manager.cpp: findTarget, sessionForTarget, sessionMatches, runtimeStatusForTarget and
-- ensureRuntimeStatus, and writes through the pointers that they return.
use obs_dsk_multistream.Base.{
  ℕ, String, Bool, true, false, ◌==◌, Option, none, some, List, [], ◌∷◌, eqb, if◌then◌else◌,
  is_empty, get_or_else,
}
use obs_dsk_multistream.Target.{OutputTarget}
use obs_dsk_multistream.Runtime.{TargetRuntimeStatus, default_status}
use obs_dsk_multistream.Manager.State.Data.{
  Session, Manager, put, emit, with_sessions, targets_changed, status_message,
}

unfoldable pub lookup_target : String → List OutputTarget → Option OutputTarget
lookup_target id [] = none
lookup_target id (t ∷ ts) = if t.id == id then some t else lookup_target id ts

-- A write through the pointer that `findTarget` returns.
unfoldable pub modify_target :
    String → (OutputTarget → OutputTarget) → List OutputTarget → List OutputTarget
modify_target id f [] = []
modify_target id f (t ∷ ts) = if t.id == id then f t ∷ ts else t ∷ modify_target id f ts

unfoldable pub lookup_session : String → List Session → Option Session
lookup_session id [] = none
lookup_session id (s ∷ ss) = if s.target_id == id then some s else lookup_session id ss

-- A write through the pointer that `sessionForTarget` returns.
unfoldable pub modify_session : String → (Session → Session) → List Session → List Session
modify_session id f [] = []
modify_session id f (s ∷ ss) = if s.target_id == id then f s ∷ ss else s ∷ modify_session id f ss

unfoldable pub find_target : Manager → String → Option OutputTarget
unfolding lookup_target
find_target m id = lookup_target id m.targets

unfoldable pub update_target : String → (OutputTarget → OutputTarget) → Manager → Manager
update_target id f m = record m { targets = modify_target id f m.targets }

unfoldable pub session_for_target : Manager → String → Option Session
session_for_target m id = lookup_session id m.sessions

unfoldable pub update_session : String → (Session → Session) → Manager → Manager
update_session id f m = with_sessions (modify_session id f m.sessions) m

unfoldable pub session_matches : Manager → String → ℕ → Bool
unfolding session_for_target
session_matches m id serial =
    if eqb serial 0
    then true
    else elim (session_for_target m id) [ none ↦ false | some s ↦ eqb s.serial serial ]

-- Signals about a target are emitted unless it exists for this run only.
unfoldable pub persistent_targets_changed : String → Manager → Manager
persistent_targets_changed id m = if m.runtime_target_ids id then m else emit targets_changed m

unfoldable pub persistent_status_message : String → String → Manager → Manager
persistent_status_message id message m =
    if m.runtime_target_ids id then m else emit (status_message message) m

fill_id : String → TargetRuntimeStatus → TargetRuntimeStatus
fill_id id s = if is_empty s.target_id then record s { target_id = id } else s

unfoldable pub runtime_status_for_target : Manager → String → TargetRuntimeStatus
unfolding fill_id
runtime_status_for_target m id = fill_id id (get_or_else (m.runtime_statuses id) default_status)

-- `TargetRuntimeStatus &status = ensureRuntimeStatus(id)` with a write through the reference.
unfoldable pub with_runtime_status :
    String → (TargetRuntimeStatus → TargetRuntimeStatus) → Manager → Manager
with_runtime_status id f m = record m {
  runtime_statuses = put id (some (f (runtime_status_for_target m id))) m.runtime_statuses;
}
