-- ===== src/Viewer/Events/Within.antt =====
-- integration/comment-viewer-integration.cpp: what each step of the probe adds to those that wait.
pub mod Ending
use obs_dsk_multistream.Base.{
  ◌&&◌, ◌||◌, subst, sym, ◌⊎◌, inl, inr, ℕ, zero, suc, ◌+◌, ◌-◌, ◌*◌, ◌≤◌, Bool, true, false, not,
  Option, none, some, List, [], ◌∷◌, ◌++◌, ℤ, pos, negsuc, ltb_ℤ, ◌≡◌, refl, ap, arith, if_under,
  if_cases, if◌then◌else◌,
}
use obs_dsk_multistream.Viewer.Contract.{CommentViewerObsIntegration}
use obs_dsk_multistream.Viewer.{
  responded, CommentViewerIntegration, CommentViewerProbeAction, Probe, Waiting, World, request,
  timer, abort_all, act, advance_probe_generation, attempts_left, begin_at, begin_probe,
  comment_viewer_max_probe_attempts, comment_viewer_probe_action, completed, connected, create_dock,
  initialize, next_attempt, open_viewer, register_open_viewer_menu, remove_dock, remove_menu,
  resume, schedule_probe, set_enabled, should_reconnect_comment_viewer_after_open, shutdown,
  wait_for, without_requests,
}
use obs_dsk_multistream.Viewer.Events.{
  Event, callback, started, opened, stopped, switched, kept, take_waiting, run_callback, step, ran,
  callbacks_of, begins, callbacks, beginnings, retries, probe_rank, waiting_rank, rank, rank-append,
  without_requests-rank,
}

probe_rank_positive : (la : Bool) (a : ℤ) → 1 ≤ probe_rank la a
unfolding probe_rank
probe_rank_positive true a = omega arith
probe_rank_positive false a = omega arith

waiting_rank_positive : (w : Waiting) → 1 ≤ waiting_rank w
unfolding waiting_rank
waiting_rank_positive (request p) = probe_rank_positive p.launch_attempted p.attempt
waiting_rank_positive (timer p) = omega arith

launch-rank :
    (la : Bool) (a : ℤ) → not la ≡ true → suc (suc (probe_rank true (pos 0))) ≤ probe_rank la a
unfolding probe_rank retries
launch-rank true a h = ground arith
launch-rank false a h = omega arith

retry-rank :
    (la : Bool) (a : ℤ)
    → not la ≡ false
    → attempts_left a (pos 30) ≡ true
    → suc (suc (probe_rank true (next_attempt a))) ≤ probe_rank la a
unfolding probe_rank retries attempts_left next_attempt
retry-rank true (pos m) h t = ground arith
retry-rank true (negsuc m) h t = ground arith
retry-rank false a h t = ground arith

-- At most so many callbacks follow from those that wait.
IsWithin : ℕ → CommentViewerIntegration → Type 0
IsWithin n v = rank v.waiting ≤ n

module _ (n : ℕ) (v : CommentViewerIntegration) where
  within : rank v.waiting ≤ n → IsWithin n v
  unfolding IsWithin
  within h = h

  out : IsWithin n v → rank v.waiting ≤ n
  unfolding IsWithin
  out h = h

  -- Only the list of those that wait counts.
  remove_dock-IsWithin : IsWithin n v → IsWithin n (remove_dock v)
  unfolding remove_dock IsWithin
  remove_dock-IsWithin h = h

  advance-IsWithin : IsWithin n v → IsWithin n (advance_probe_generation v)
  unfolding advance_probe_generation IsWithin
  advance-IsWithin h = h

  wait_for-IsWithin :
      (w : Waiting) → rank v.waiting + waiting_rank w ≤ n → IsWithin n (wait_for w v)
  unfolding wait_for IsWithin
  wait_for-IsWithin w h = omega (arith, rank-append v.waiting w, h)

  abort_all-IsWithin : IsWithin n v → IsWithin n (abort_all v)
  unfolding abort_all IsWithin
  abort_all-IsWithin h = omega (arith, without_requests-rank v.waiting, h)

  module _ (world : World) where
    register-IsWithin : IsWithin n v → IsWithin n (register_open_viewer_menu world v)
    unfolding register_open_viewer_menu IsWithin
    register-IsWithin h = if_cases (IsWithin n) _ h h

    connected-IsWithin :
        (a : Option CommentViewerObsIntegration) → IsWithin n v → IsWithin n (connected world a v)
    unfolding connected create_dock IsWithin
    connected-IsWithin none h = h
    connected-IsWithin (some a) h = if_cases (IsWithin n) _ h (if_cases (IsWithin n) v.dock h h)

    schedule_probe-IsWithin :
        (p : Probe)
        → rank v.waiting + probe_rank p.launch_attempted p.attempt ≤ n
        → IsWithin n (schedule_probe world p v)
    unfolding schedule_probe waiting_rank
    schedule_probe-IsWithin p h =
        let low = within (omega (arith, h)) in
        if_cases (IsWithin n) _ low (wait_for-IsWithin (request p) h)
