-- ===== src/Manager/Stop/Suppression.antt =====
-- The suppression of the starts and stops that follow OBS's own streaming.
use obs_dsk_multistream.Base.{◌≡◌, refl}
use obs_dsk_multistream.Manager.State.{Env, Manager}
use obs_dsk_multistream.Manager.Stop.{
  suppress_next_auto_start, suppress_next_auto_stop, clear_auto_start_suppression,
  clear_auto_stop_suppression, auto_start_suppressed, auto_stop_suppressed,
  handle_obs_streaming_started, handle_obs_streaming_stopped,
}

-- After `suppressNextObsAutoStart`, the next start of OBS's streaming starts no target, whatever
-- time has passed, and leaves no suppression behind. Likewise for stops.
pub suppressed_once :
    (env later : Env) (m : Manager)
    → (handle_obs_streaming_started later (suppress_next_auto_start env m)
        ≡ clear_auto_start_suppression later m)
      × (handle_obs_streaming_stopped later (suppress_next_auto_stop env m)
          ≡ clear_auto_stop_suppression later m)
unfolding handle_obs_streaming_started handle_obs_streaming_stopped suppress_next_auto_start
    suppress_next_auto_stop clear_auto_start_suppression clear_auto_stop_suppression
    auto_start_suppressed auto_stop_suppressed
suppressed_once env later m = (refl, refl)
