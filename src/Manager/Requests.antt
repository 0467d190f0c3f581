-- ===== src/Manager/Requests.antt =====
-- core/output-manager.cpp: the requests that open a YouTube operation (refreshYouTubeAccessToken,
-- listYouTubeBroadcasts and listYouTubeBroadcastPage up to the answer).
pub mod Kept
use obs_dsk_multistream.Base.{
  Bool, ℕ, String, false, not, ◌&&◌, none, some, List, [], if◌then◌else◌,
}
use obs_dsk_multistream.Target.{OutputTarget}
use obs_dsk_multistream.Runtime.{PlatformLiveState}
use obs_dsk_multistream.YouTube.Selection.{Broadcast}
use obs_dsk_multistream.YouTube.Request.{Ticket, Request, token_request, broadcast_page}
use obs_dsk_multistream.Manager.State.{
  Env, Manager, emit, find_target, runtime_status_for_target, set_runtime_platform,
  set_target_api_warning, send_youtube_request,
}
use obs_dsk_multistream.Manager.Operation.{
  can_continue_platform_start, youtube_operation_matches, complete_youtube_operation,
  oauth_effective_client_credentials, is_complete, stop_youtube_auto_start_if_timed_out,
}

-- The check at the head of each function of the operation and of each completion.
unfoldable pub goes_on : Ticket → Manager → OutputTarget → Bool
goes_on k m target =
    can_continue_platform_start target (runtime_status_for_target m k.target_id)
    && youtube_operation_matches m k.target_id k.serial k.generation

unfoldable pub while_going_on : Ticket → (OutputTarget → Manager → Manager) → Manager → Manager
while_going_on k go m = elim (find_target m k.target_id) [
  | none ↦ m
  | some target ↦ if goes_on k m target then go target m else m
]

unfoldable pub complete : Ticket → Manager → Manager
complete k m = complete_youtube_operation k.target_id k.serial k.generation m

module _ (env : Env) where
  open env use {trimmed}

  -- The end of the operation with a warning.
  unfoldable pub warn : Ticket → String → Manager → Manager
  unfolding complete
  warn k message m = set_target_api_warning env k.target_id message k.serial (complete k m)

  unfoldable pub unless_timed_out : Ticket → (Manager → Manager) → Manager → Manager
  unless_timed_out k go m =
      let (m', ended) =
        stop_youtube_auto_start_if_timed_out env k.target_id k.serial k.generation m in
      if ended then m' else go m'

  unfoldable pub ask_token : Ticket → OutputTarget → Manager → Manager
  ask_token k target m =
      let credentials =
        oauth_effective_client_credentials env target.auth_mode target.oauth_client_id
          target.oauth_client_secret in
      if not (is_complete env credentials)
      then warn k "YouTube token refresh failed: Google OAuth application credentials are missing."
          m
      else emit (send_youtube_request k (token_request credentials target.oauth_refresh_token)) m

  unfoldable pub refresh_youtube_access_token : Ticket → Manager → Manager
  refresh_youtube_access_token k m = while_going_on k (ask_token k) m

  unfoldable pub list_youtube_broadcast_page :
      Ticket → String → String → String → ℕ → List Broadcast → Manager → Manager
  list_youtube_broadcast_page k token status page number broadcasts m =
      while_going_on k
        (λ target m.
          unless_timed_out k
            (emit (send_youtube_request k (broadcast_page token status page number broadcasts))) m)
        m

  -- From the first page of the upcoming broadcasts on.
  unfoldable pub find_broadcast : Ticket → String → Manager → Manager
  find_broadcast k token m = list_youtube_broadcast_page k token "upcoming" "" 0 [] (
      set_runtime_platform env k.target_id k.serial PlatformLiveState.rtmp_signal_only
        "Finding YouTube broadcast" "" m)

  unfoldable pub list_youtube_broadcasts : Ticket → String → Manager → Manager
  list_youtube_broadcasts k token m =
      while_going_on k (λ target m. unless_timed_out k (find_broadcast k token) m) m
