-- ===== src/Manager/Machine.antt =====
-- The manager as a machine: one step for each operation that the program, its timers and OBS
-- call, but for the reload of the settings for another profile (reloadForCurrentProfile), each with answers of its own from OBS, the clock and the stores.
use obs_dsk_multistream.Base.{ℕ, String, ◌≡◌, refl, Bool, false, ℤ, []}
use obs_dsk_multistream.Target.{OutputTarget}
use obs_dsk_multistream.Manager.State.{Env, Manager}
use obs_dsk_multistream.Manager.Encoders.Counting.{refs_of}
use obs_dsk_multistream.Manager.Sessions.{release_session}
use obs_dsk_multistream.Manager.Sessions.Counting.{users}
use obs_dsk_multistream.Manager.Sessions.Invariant.{IsSound, release_session-IsSound}
use obs_dsk_multistream.Manager.Start.{start_target, start_all}
use obs_dsk_multistream.Manager.Start.Invariant.{start_target-IsSound, start_all-IsSound}
use obs_dsk_multistream.Manager.Stop.{
  stop_target, stop_all, handle_obs_streaming_started, handle_obs_streaming_stopped,
}
use obs_dsk_multistream.Manager.Stop.Invariant.{
  stop_target-IsSound, stop_all-IsSound, streaming_started-IsSound, streaming_stopped-IsSound,
}
use obs_dsk_multistream.Manager.Targets.{
  remove_target, remove_runtime_target, set_target_enabled, mutate_target_for_ui,
}
use obs_dsk_multistream.Manager.Targets.Edits.{
  remove_target-IsSound, remove_runtime_target-IsSound, set_target_enabled-IsSound,
  mutate_target_for_ui-IsSound,
}
use obs_dsk_multistream.Manager.Broadcast.{poll_due}
use obs_dsk_multistream.Manager.Broadcast.Invariant.{poll_due-IsSound}
use obs_dsk_multistream.YouTube.Request.{Ticket, Request, YoutubeAnswer}
use obs_dsk_multistream.Manager.Answers.{answered}
use obs_dsk_multistream.Manager.Answers.Follows.Kept.{answered-kept}
use obs_dsk_multistream.Manager.Operation.Invariant.{SoundState, AnyRequest, sound}
use obs_dsk_multistream.Manager.Broadcast.Retry.{apply_youtube_broadcast_selection}
use obs_dsk_multistream.Manager.Broadcast.Retry.Invariant.{apply_selection-IsSound}
use obs_dsk_multistream.Manager.Signals.{StopCode, handle_output_signal, handle_output_stopped}
use obs_dsk_multistream.Manager.Signals.Invariant.{
  handle_output_signal-IsSound, handle_output_stopped-IsSound,
}
use obs_dsk_multistream.Settings.{SceneLayoutLink}
use obs_dsk_multistream.Manager.Adding.{add_target, add_runtime_target}
use obs_dsk_multistream.Manager.Adding.Distinct.{add_target-core, add_runtime_target-core}
use obs_dsk_multistream.Manager.Layouts.{SceneEdit, edit_scenes_saved}
use obs_dsk_multistream.Manager.Layouts.Undone.{edit_scenes_saved-core}
use obs_dsk_multistream.Manager.Links.{
  upsert_scene_link, remove_scene_link, set_follow_obs_scene, handle_obs_scene_changed,
}
use obs_dsk_multistream.Manager.Links.Laws.{
  upsert_scene_link-core, remove_scene_link-core, set_follow_obs_scene-core,
  handle_obs_scene_changed-core,
}
use obs_dsk_multistream.Manager.Routes.{RouteEdit, edit_routes, refresh_scene_identities}
use obs_dsk_multistream.Manager.Routes.Undone.{edit_routes-kept, refresh_scene_identities-core}
use obs_dsk_multistream.Manager.Collection.{
  prepare_for_scene_collection_change, prepare_for_scene_collection_change-IsSound,
}
use obs_dsk_multistream.Manager.Unload.{prepare_for_unload, prepare_for_unload-IsSound}

pub data Operation : Type 0 where
  start_target_op stop_target_op remove_target_op remove_runtime_target_op : String → Operation
  start_all_op stop_all_op obs_streaming_started obs_streaming_stopped unload : Operation
  scene_collection_change : Operation
  set_target_enabled_op : String → Bool → Operation
  mutate_target_op : String → (OutputTarget → OutputTarget) → Operation
  add_target_op add_runtime_target_op : OutputTarget → Operation
  edit_scenes_op : SceneEdit → Operation
  edit_routes_op : String → RouteEdit → Operation
  upsert_scene_link_op : SceneLayoutLink → Operation
  remove_scene_link_op : String → String → Operation
  set_follow_obs_scene_op : Bool → Operation
  -- a scene of OBS was switched to, or OBS's scenes changed
  obs_scene_changed refresh_identities : Operation
  -- the timer that a release or a poll set, for the session with the serial
  release_due : String → ℕ → Operation
  -- the timer of a YouTube poll
  youtube_poll_due : String → ℕ → ℕ → ℕ → ℕ → Operation
  -- an answer of YouTube to a request, the user's choice
  youtube_answered : Ticket → Request → YoutubeAnswer → Operation
  youtube_broadcast_chosen : String → ℕ → ℕ → String → Operation
  -- what OBS reports of an output: a signal, and the end
  output_signal : ℕ → ℕ → String → ℤ → Operation
  output_stopped : ℕ → ℕ → StopCode → String → Operation

unfoldable pub perform : Env → Operation → Manager → Manager
perform env (start_target_op id) m = (start_target env id m).0
perform env (stop_target_op id) m = stop_target env id m
perform env (remove_target_op id) m = remove_target env id m
perform env (remove_runtime_target_op id) m = remove_runtime_target env id m
perform env start_all_op m = start_all env m
perform env stop_all_op m = stop_all env m
perform env obs_streaming_started m = handle_obs_streaming_started env m
perform env obs_streaming_stopped m = handle_obs_streaming_stopped env m
perform env unload m = prepare_for_unload env m
perform env scene_collection_change m = prepare_for_scene_collection_change env m
perform env (set_target_enabled_op id enabled) m = set_target_enabled env id enabled m
perform env (mutate_target_op id mutator) m = (mutate_target_for_ui env id mutator m).0
perform env (add_target_op t) m = (add_target env t m).0
perform env (add_runtime_target_op t) m = (add_runtime_target env t m).0
perform env (edit_scenes_op edit) m = (edit_scenes_saved env edit m).0
perform env (edit_routes_op id edit) m = (edit_routes env id edit m).0
perform env (upsert_scene_link_op link) m = upsert_scene_link env link m
perform env (remove_scene_link_op name uuid) m = remove_scene_link env name uuid m
perform env (set_follow_obs_scene_op follow) m = set_follow_obs_scene env follow m
perform env obs_scene_changed m = handle_obs_scene_changed env m
perform env refresh_identities m = refresh_scene_identities env m
perform env (release_due id serial) m = release_session env id false serial m
perform env (youtube_poll_due id serial generation poll attempt) m =
    poll_due env id serial generation poll attempt m
perform env (youtube_answered k r a) m = answered env k r a m
perform env (youtube_broadcast_chosen id serial generation broadcast_id) m =
    apply_youtube_broadcast_selection env id serial generation broadcast_id m
perform env (output_signal output serial signal_name delay) m =
    handle_output_signal env output serial signal_name delay m
perform env (output_stopped output serial code last_error) m =
    handle_output_stopped env output serial code last_error m

-- A run of the program from one state to another.
pub data Run (m : Manager) : Manager → Type 0 where
  begun : Run m m
  then_performed :
      {m' : Manager} → Run m m' → (env : Env) (op : Operation) → Run m (perform env op m')

perform-IsSound :
    (env : Env) (op : Operation) (m : Manager) → IsSound m.core → IsSound (perform env op m).core
unfolding perform
perform-IsSound env (start_target_op id) m v = start_target-IsSound env id m v
perform-IsSound env (stop_target_op id) m v = stop_target-IsSound env id m v
perform-IsSound env (remove_target_op id) m v = remove_target-IsSound env id m v
perform-IsSound env (remove_runtime_target_op id) m v = remove_runtime_target-IsSound env id m v
perform-IsSound env start_all_op m v = start_all-IsSound env m v
perform-IsSound env stop_all_op m v = stop_all-IsSound env m v
perform-IsSound env obs_streaming_started m v = streaming_started-IsSound env m v
perform-IsSound env obs_streaming_stopped m v = streaming_stopped-IsSound env m v
perform-IsSound env unload m v = prepare_for_unload-IsSound env m v
perform-IsSound env scene_collection_change m v =
    prepare_for_scene_collection_change-IsSound env m v
perform-IsSound env (set_target_enabled_op id enabled) m v =
    set_target_enabled-IsSound env id enabled m v
perform-IsSound env (mutate_target_op id mutator) m v =
    mutate_target_for_ui-IsSound env id mutator m v
perform-IsSound env (add_target_op t) m v = rw (add_target-core env t m) v
perform-IsSound env (add_runtime_target_op t) m v = rw (add_runtime_target-core env t m) v
perform-IsSound env (edit_scenes_op edit) m v = rw (edit_scenes_saved-core env edit m) v
perform-IsSound env (edit_routes_op id edit) m v = rw (edit_routes-kept env id edit m).0 v
perform-IsSound env (upsert_scene_link_op link) m v = rw (upsert_scene_link-core env link m) v
perform-IsSound env (remove_scene_link_op name uuid) m v =
    rw (remove_scene_link-core env name uuid m) v
perform-IsSound env (set_follow_obs_scene_op follow) m v =
    rw (set_follow_obs_scene-core env follow m) v
perform-IsSound env obs_scene_changed m v = rw (handle_obs_scene_changed-core env m) v
perform-IsSound env refresh_identities m v = rw (refresh_scene_identities-core env m) v
perform-IsSound env (release_due id serial) m v = release_session-IsSound env id false serial m v
perform-IsSound env (youtube_poll_due id serial generation poll attempt) m v =
    poll_due-IsSound env id serial generation poll attempt m v
perform-IsSound env (youtube_answered k r a) m v =
    answered-kept env SoundState AnyRequest (sound env) k r a m (λ k' r' f. tt) v
perform-IsSound env (youtube_broadcast_chosen id serial generation broadcast_id) m v =
    apply_selection-IsSound env id serial generation broadcast_id m v
perform-IsSound env (output_signal output serial signal_name delay) m v =
    handle_output_signal-IsSound env output serial signal_name delay m v
perform-IsSound env (output_stopped output serial code last_error) m v =
    handle_output_stopped-IsSound env output serial code last_error m v

empty-IsSound : (m : Manager) → m.sessions ≡ [] → m.shared_encoders ≡ [] → IsSound m.core
unfolding refs_of users
empty-IsSound m s e = record {
  table = rw e (record { used = tt; distinct = tt });
  counted = λ k n. rw (s, e) refl;
  single = rw s tt;
  outputs = rw s tt;
}

-- Every state that a run reaches from a manager without sessions and encoder sets is sound:
-- encoder sets are counted exactly by the sessions that use them, no set is kept without a user,
-- no target has two sessions, and every session owns an output. The answers of OBS, of the clock
-- and of the stores are arbitrary at every step. A run has every operation but the reload for another
-- profile.
pub run-IsSound :
    (m m' : Manager) → m.sessions ≡ [] → m.shared_encoders ≡ [] → Run m m' → IsSound m'.core
run-IsSound m m' s e begun = empty-IsSound m s e
run-IsSound m m' s e (then_performed {m' = before} r env op) =
    perform-IsSound env op before (run-IsSound m before s e r)
