-- ===== src/Viewer/Events.antt =====
-- integration/comment-viewer-integration.cpp: the sequences of calls and callbacks, and a rank of those
-- that wait.
pub mod Within
use obs_dsk_multistream.Base.{
  ◌&&◌, ◌||◌, subst, sym, ◌⊎◌, inl, inr, ℕ, zero, suc, ◌+◌, ◌-◌, ◌*◌, ◌≤◌, Bool, true, false, not,
  Option, none, some, List, [], ◌∷◌, ◌++◌, ℤ, pos, negsuc, ltb_ℤ, ◌≡◌, refl, ap, arith, if_under,
  if_cases, if◌then◌else◌,
}
use obs_dsk_multistream.Viewer.Contract.{CommentViewerObsIntegration}
use obs_dsk_multistream.Viewer.{
  responded, CommentViewerIntegration, CommentViewerProbeAction, Probe, Waiting, World, request,
  timer, abort_all, act, advance_probe_generation, attempts_left, begin_at, begin_probe,
  comment_viewer_max_probe_attempts, comment_viewer_probe_action, completed, connected, create_dock,
  initialize, next_attempt, open_viewer, register_open_viewer_menu, remove_dock, remove_menu,
  resume, schedule_probe, set_enabled, should_reconnect_comment_viewer_after_open, shutdown,
  wait_for, without_requests,
}

-- What the event loop does next: it runs the callback of one of those that wait, or calls an
-- operation. In each case the surroundings answer as they like.
pub data Event : Type 0 where
  callback : ℕ → Event
  started opened stopped : Event
  switched : Bool → Event

abbrev kept : Waiting → Option (Waiting × List Waiting) → Option (Waiting × List Waiting)
kept w none = none
kept w (some (taken, rest)) = some (taken, w ∷ rest)

-- Takes the i-th of those that wait out of the list.
take_waiting : ℕ → List Waiting → Option (Waiting × List Waiting)
take_waiting i [] = none
take_waiting zero (w ∷ ws) = some (w, ws)
take_waiting (suc i) (w ∷ ws) = kept w (take_waiting i ws)
  where
    kept : Waiting → Option (Waiting × List Waiting) → Option (Waiting × List Waiting)
    kept w none = none
    kept w (some (taken, rest)) = some (taken, w ∷ rest)

run_callback :
    World → Option (Waiting × List Waiting) → CommentViewerIntegration → CommentViewerIntegration
run_callback world none v = v
run_callback world (some (w, rest)) v = resume world w (record v { waiting = rest })

step : World → Event → CommentViewerIntegration → CommentViewerIntegration
step world (callback i) v = run_callback world (take_waiting i v.waiting) v
step world started v = initialize world v
step world opened v = open_viewer world v
step world stopped v = shutdown v
step world (switched on) v = set_enabled world on v

ran : Option (Waiting × List Waiting) → ℕ
ran none = 0
ran (some found) = 1

callbacks_of : Event → CommentViewerIntegration → ℕ
callbacks_of (callback i) v = ran (take_waiting i v.waiting)
callbacks_of _ v = 0

-- The events that may begin a probe.
begins : Event → ℕ
begins (callback i) = 0
begins stopped = 0
begins _ = 1

-- The callbacks that run during the events, and the begins among them.
pub callbacks : List (World × Event) → CommentViewerIntegration → ℕ
callbacks [] v = 0
callbacks ((world, e) ∷ es) v = callbacks_of e v + callbacks es (step world e v)

pub beginnings : List (World × Event) → ℕ
beginnings [] = 0
beginnings ((world, e) ∷ es) = begins e + beginnings es

-- The retries that the attempt leaves, and how many callbacks may follow from those that wait.
retries : ℤ → ℕ
retries (pos n) = 29 - n
retries (negsuc n) = 0

probe_rank : Bool → ℤ → ℕ
probe_rank true attempt = 1 + 2 * retries attempt
probe_rank false attempt = 61

waiting_rank : Waiting → ℕ
waiting_rank (request p) = probe_rank p.launch_attempted p.attempt
waiting_rank (timer p) = 1 + probe_rank p.launch_attempted p.attempt

rank : List Waiting → ℕ
rank [] = 0
rank (w ∷ ws) = waiting_rank w + rank ws

rank-append : (ws : List Waiting) (w : Waiting) → rank (ws ++ (w ∷ [])) ≡ rank ws + waiting_rank w
unfolding rank
rank-append [] w = omega arith
rank-append (x ∷ ws) w = omega (arith, rank-append ws w)

without_requests-rank : (ws : List Waiting) → rank (without_requests ws) ≤ rank ws
unfolding rank without_requests
without_requests-rank [] = omega arith
without_requests-rank (request p ∷ ws) = omega (arith, without_requests-rank ws)
without_requests-rank (timer p ∷ ws) = omega (arith, without_requests-rank ws)
