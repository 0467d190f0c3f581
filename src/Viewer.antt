-- ===== src/Viewer.antt =====
-- core/comment-viewer-integration-policy.hpp and integration/comment-viewer-integration.cpp: the
-- probe that looks for the DSK Comment Viewer and puts its page into a dock of OBS. A request
-- in flight and a timer that runs are in `waiting`, where the event loop finds them.
pub mod Contract
pub mod Events
use obs_dsk_multistream.Base.{
  ℕ, zero, suc, ◌+◌, ◌%◌, ◌^◌, Bool, true, false, not, ◌&&◌, ◌||◌, ◌==◌, Option, none, some, List,
  [], ◌∷◌, ◌++◌, ℤ, pos, negsuc, ltb_ℤ, eqb, if◌then◌else◌,
}
use obs_dsk_multistream.Viewer.Contract.{CommentViewerObsIntegration}

comment_viewer_max_probe_attempts : ℤ
comment_viewer_max_probe_attempts = pos 30

pub data CommentViewerProbeAction : Type 0 where
  ignore connect launch retry give_up : CommentViewerProbeAction

comment_viewer_integration_enabled_at_startup : Bool → Bool
comment_viewer_integration_enabled_at_startup viewer_installed = viewer_installed

should_reconnect_comment_viewer_after_open : Bool → Bool → Bool → Bool
should_reconnect_comment_viewer_after_open enabled shutting_down viewer_installed =
    enabled && not shutting_down && viewer_installed

-- attempt >= 0 && attempt + 1 < maxAttempts
attempts_left : ℤ → ℤ → Bool
attempts_left (pos n) max_attempts = ltb_ℤ (pos (suc n)) max_attempts
attempts_left (negsuc n) max_attempts = false

comment_viewer_probe_action : Bool → ℕ → ℕ → Bool → Bool → ℤ → ℤ → CommentViewerProbeAction
comment_viewer_probe_action enabled current_generation callback_generation response_valid
      launch_attempted attempt max_attempts =
    if not enabled || not (eqb callback_generation current_generation)
    then CommentViewerProbeAction.ignore
    else if response_valid
    then CommentViewerProbeAction.connect
    else if not launch_attempted
    then CommentViewerProbeAction.launch
    else if attempts_left attempt max_attempts
    then CommentViewerProbeAction.retry
    else CommentViewerProbeAction.give_up

-- What a probe's callback has captured.
pub record Probe : Type 0 where
  pub generation : ℕ
  pub launch_attempted : Bool
  pub attempt : ℤ

-- A request whose answer is awaited, and a timer that schedules a probe.
pub data Waiting : Type 0 where
  request : Probe → Waiting
  timer : Probe → Waiting

-- The members of the class; `menu` and `dock` tell whether the action and the dock exist.
pub record CommentViewerIntegration : Type 0 where
  pub enabled : Bool
  pub shutting_down : Bool
  pub probe_generation : ℕ
  pub menu : Bool
  pub dock : Bool
  pub waiting : List Waiting

-- What the surroundings answer during a call: whether the Viewer is installed, whether OBS makes
-- the action and the dock, and the parsed answer of the endpoint, if it succeeded.
pub record World : Type 0 where
  pub installed : Bool
  pub menu_made : Bool
  pub dock_made : Bool
  pub answer : Option CommentViewerObsIntegration

-- `++probeGeneration_` on a quint64, past zero.
next_generation : ℕ → ℕ
next_generation g = let n = (g + 1) % 2 ^ 64 in if eqb n 0 then (n + 1) % 2 ^ 64 else n

advance_probe_generation : CommentViewerIntegration → CommentViewerIntegration
advance_probe_generation v = record v { probe_generation = next_generation v.probe_generation }

remove_dock : CommentViewerIntegration → CommentViewerIntegration
remove_dock v = record v { dock = false }

remove_menu : CommentViewerIntegration → CommentViewerIntegration
remove_menu v = record v { menu = false }

-- HttpClient::abortAll: the completion of a request in flight is never called.
without_requests : List Waiting → List Waiting
without_requests [] = []
without_requests (request p ∷ ws) = without_requests ws
without_requests (timer p ∷ ws) = timer p ∷ without_requests ws

abort_all : CommentViewerIntegration → CommentViewerIntegration
abort_all v = record v { waiting = without_requests v.waiting }

wait_for : Waiting → CommentViewerIntegration → CommentViewerIntegration
wait_for w v = record v { waiting = v.waiting ++ (w ∷ []) }

responded : Option CommentViewerObsIntegration → Bool
responded none = false
responded (some integration) = true

next_attempt : ℤ → ℤ
next_attempt (pos n) = pos (suc n)
next_attempt (negsuc zero) = pos 0
next_attempt (negsuc (suc n)) = negsuc n

shutdown : CommentViewerIntegration → CommentViewerIntegration
shutdown v =
    if v.shutting_down
    then v
    else remove_menu
        (remove_dock (abort_all (advance_probe_generation (record v { shutting_down = true }))))

module _ (world : World) where
  register_open_viewer_menu : CommentViewerIntegration → CommentViewerIntegration
  register_open_viewer_menu v =
      if not world.installed || v.menu then v else record v { menu = world.menu_made }

  -- createDock; an unexpected url is refused, and a dock that exists is shown.
  create_dock : CommentViewerObsIntegration → CommentViewerIntegration → CommentViewerIntegration
  create_dock integration v =
      if not (integration.viewer_url == "http://127.0.0.1:17321/viewer?dock=chat&send=1")
      then v
      else if v.dock
      then v
      else record v { dock = world.dock_made }

  schedule_probe : Probe → CommentViewerIntegration → CommentViewerIntegration
  schedule_probe p v =
      if v.shutting_down
        || not v.enabled
        || not (eqb p.generation v.probe_generation)
        || not world.installed
      then v
      else wait_for (request p) v

  -- beginProbe after the new generation
  begin_at : CommentViewerIntegration → CommentViewerIntegration
  begin_at v =
      if not world.installed
      then remove_dock v
      else schedule_probe
          (record { generation = v.probe_generation; launch_attempted = false; attempt = pos 0 }) v

  begin_probe : CommentViewerIntegration → CommentViewerIntegration
  begin_probe v = begin_at (advance_probe_generation v)

  connected :
      Option CommentViewerObsIntegration → CommentViewerIntegration → CommentViewerIntegration
  connected none v = v
  connected (some integration) v = create_dock integration v

  -- The switch over the action in the completion of a request.
  act : CommentViewerProbeAction → Probe → CommentViewerIntegration → CommentViewerIntegration
  act CommentViewerProbeAction.ignore p v = v
  act CommentViewerProbeAction.connect p v = connected world.answer v
  act CommentViewerProbeAction.launch p v =
      wait_for (timer (record p { launch_attempted = true; attempt = pos 0 })) v
  act CommentViewerProbeAction.retry p v =
      wait_for (timer (record p { launch_attempted = true; attempt = next_attempt p.attempt })) v
  act CommentViewerProbeAction.give_up p v = remove_dock v

  completed : Probe → CommentViewerIntegration → CommentViewerIntegration
  completed p v =
      act
        (comment_viewer_probe_action v.enabled v.probe_generation p.generation
          (responded world.answer) p.launch_attempted p.attempt comment_viewer_max_probe_attempts)
        p v

  resume : Waiting → CommentViewerIntegration → CommentViewerIntegration
  resume (request p) v = completed p v
  resume (timer p) v = schedule_probe p v

  initialize : CommentViewerIntegration → CommentViewerIntegration
  initialize v =
      let v =
        register_open_viewer_menu
          (record v { enabled = comment_viewer_integration_enabled_at_startup world.installed }) in
      if v.enabled then begin_probe v else remove_dock v

  set_enabled : Bool → CommentViewerIntegration → CommentViewerIntegration
  set_enabled on v =
      if v.shutting_down || (v.enabled && on) || (not v.enabled && not on)
      then v
      else if on
      then begin_probe (register_open_viewer_menu (record v { enabled = true }))
      else remove_dock (abort_all (advance_probe_generation (record v { enabled = false })))

  open_viewer : CommentViewerIntegration → CommentViewerIntegration
  open_viewer v =
      if v.shutting_down
      then v
      else if should_reconnect_comment_viewer_after_open v.enabled v.shutting_down world.installed
      then begin_probe v
      else v
