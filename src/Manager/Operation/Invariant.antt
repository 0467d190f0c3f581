-- ===== src/Manager/Operation/Invariant.antt =====
-- The writes of a YouTube operation against the invariant of the sessions (core/output-manager.cpp).
use obs_dsk_multistream.Manager.State.{Env, Manager}
use obs_dsk_multistream.Manager.Frame.{
  set_runtime_platform-core, set_target_api_warning-core, clear_target_api_warning-core,
}
use obs_dsk_multistream.Manager.Sessions.Invariant.{IsSound, same-IsSound}
use obs_dsk_multistream.Manager.Sessions.Writes.{update_session-IsSound}
use obs_dsk_multistream.Manager.State.{with_runtime_status}
use obs_dsk_multistream.Manager.Operation.Kept.{IsKept}
use obs_dsk_multistream.YouTube.Request.{Ticket, Request}

abbrev pub SoundState : Manager → Type 0
SoundState m = IsSound m.core

-- Every request is allowed.
abbrev pub AnyRequest : Ticket → Request → Type 0
AnyRequest k r = Unit {0}

module _ (env : Env) where
  pub sound : IsKept env SoundState AnyRequest
  unfolding with_runtime_status
  sound = record {
    platform = λ id serial state message error m v.
        same-IsSound _ _ (set_runtime_platform-core env id serial state message error m) v;
    warned = λ id message serial m v.
        same-IsSound _ _ (set_target_api_warning-core env id message serial m) v;
    cleared = λ id m v. same-IsSound _ _ (clear_target_api_warning-core env id m) v;
    session_written = λ id f same m v. update_session-IsSound id f same m v;
    status_written = λ id f m v. v;
    told = λ text m v. v;
    asked = λ id serial generation choices m v. v;
    polled = λ delay id serial generation poll attempt m v. v;
    sent = λ k r m allowed v. v;
  }
