-- ===== src/Viewer/Events/Within/Ending.antt =====
-- integration/comment-viewer-integration.cpp: how often the callbacks of the probe run.
use obs_dsk_multistream.Base.{
  ◌&&◌, ◌||◌, subst, sym, ◌⊎◌, inl, inr, ℕ, zero, suc, ◌+◌, ◌-◌, ◌*◌, ◌≤◌, Bool, true, false, not,
  Option, none, some, List, [], ◌∷◌, ℤ, pos, ◌≡◌, refl, ap, arith, if_under, if_cases,
  if◌then◌else◌,
}
use obs_dsk_multistream.Viewer.{
  responded, CommentViewerIntegration, CommentViewerProbeAction, Probe, Waiting, World, request,
  timer, abort_all, act, advance_probe_generation, attempts_left, begin_at, begin_probe,
  comment_viewer_max_probe_attempts, comment_viewer_probe_action, completed, initialize,
  next_attempt, open_viewer, remove_dock, remove_menu, resume, set_enabled,
  should_reconnect_comment_viewer_after_open, shutdown,
}
use obs_dsk_multistream.Viewer.Events.{
  Event, callback, started, opened, stopped, switched, kept, take_waiting, run_callback, step, ran,
  callbacks_of, begins, callbacks, beginnings, probe_rank, waiting_rank, rank,
}
use obs_dsk_multistream.Viewer.Events.Within.{
  probe_rank_positive, waiting_rank_positive, launch-rank, retry-rank, IsWithin, within, out,
  remove_dock-IsWithin, advance-IsWithin, wait_for-IsWithin, abort_all-IsWithin, register-IsWithin,
  connected-IsWithin, schedule_probe-IsWithin,
}

action_cases :
    (P : CommentViewerProbeAction → Type 0) (enabled : Bool) (current own : ℕ) (valid la : Bool)
    (a m : ℤ)
    → P CommentViewerProbeAction.ignore
    → P CommentViewerProbeAction.connect
    → (not la ≡ true → P CommentViewerProbeAction.launch)
    → (not la ≡ false → attempts_left a m ≡ true → P CommentViewerProbeAction.retry)
    → P CommentViewerProbeAction.give_up
    → P (comment_viewer_probe_action enabled current own valid la a m)
unfolding comment_viewer_probe_action
action_cases P enabled current own valid la a m i c l r g = if_cases P _ i (
    if_cases P valid c (if_under P (not la) l (λ e. if_under P (attempts_left a m) (r e) (λ t. g))))

-- The completion of a request leaves fewer callbacks than there were with it.
completed-IsWithin :
    (n : ℕ) (world : World) (v : CommentViewerIntegration) (p : Probe)
    → rank v.waiting + probe_rank p.launch_attempted p.attempt ≤ suc n
    → IsWithin n (completed world p v)
unfolding completed act comment_viewer_max_probe_attempts waiting_rank
completed-IsWithin n world v p h =
    let la = p.launch_attempted in
    let a = p.attempt in
    let low = within n v (omega (arith, h, probe_rank_positive la a)) in
    action_cases (λ x. IsWithin n (act world x p v)) v.enabled v.probe_generation p.generation
      (responded world.answer) la a comment_viewer_max_probe_attempts low
      (connected-IsWithin n v world world.answer low)
      (λ e.
        wait_for-IsWithin n v (timer (record p { launch_attempted = true; attempt = pos 0 }))
          (omega (arith, h, launch-rank la a e)))
      (λ e t.
        wait_for-IsWithin n v
          (timer (record p { launch_attempted = true; attempt = next_attempt a }))
          (omega (arith, h, retry-rank la a e t)))
      (remove_dock-IsWithin n v low)

resume-IsWithin :
    (n : ℕ) (world : World) (v : CommentViewerIntegration) (w : Waiting)
    → rank v.waiting + waiting_rank w ≤ suc n
    → IsWithin n (resume world w v)
unfolding resume waiting_rank
resume-IsWithin n world v (request p) h = completed-IsWithin n world v p h
resume-IsWithin n world v (timer p) h = schedule_probe-IsWithin n v world p (omega (arith, h))

module _ (k : ℕ) (world : World) where
  -- An operation adds at most the 61 callbacks of one probe.
  raised : (v : CommentViewerIntegration) → IsWithin k v → IsWithin (k + 61) v
  unfolding IsWithin
  raised v h = omega (arith, h)

  begin_at-IsWithin :
      (v : CommentViewerIntegration) → IsWithin k v → IsWithin (k + 61) (begin_at world v)
  unfolding begin_at probe_rank IsWithin
  begin_at-IsWithin v h =
      if_cases (IsWithin (k + 61)) (not world.installed)
        (remove_dock-IsWithin (k + 61) v (raised v h))
        (schedule_probe-IsWithin (k + 61) v world
          (record { generation = v.probe_generation; launch_attempted = false; attempt = pos 0 })
          (omega (arith, h)))

  begin_probe-IsWithin :
      (v : CommentViewerIntegration) → IsWithin k v → IsWithin (k + 61) (begin_probe world v)
  unfolding begin_probe
  begin_probe-IsWithin v h = begin_at-IsWithin (advance_probe_generation v) (advance-IsWithin k v h)

  opened-IsWithin :
      (v : CommentViewerIntegration) → IsWithin k v → IsWithin (k + 61) (open_viewer world v)
  unfolding open_viewer
  opened-IsWithin v h = if_cases (IsWithin (k + 61)) v.shutting_down (raised v h) (
      if_cases (IsWithin (k + 61))
        (should_reconnect_comment_viewer_after_open v.enabled v.shutting_down world.installed)
        (begin_probe-IsWithin v h) (raised v h))

  enabled_or_not :
      (v : CommentViewerIntegration)
      → IsWithin k v
      → IsWithin (k + 61) (if v.enabled then begin_probe world v else remove_dock v)
  enabled_or_not v h =
      if_cases (IsWithin (k + 61)) v.enabled (begin_probe-IsWithin v h)
        (remove_dock-IsWithin (k + 61) v (raised v h))

  started-IsWithin :
      (v : CommentViewerIntegration) → IsWithin k v → IsWithin (k + 61) (initialize world v)
  unfolding initialize IsWithin
  started-IsWithin v h = enabled_or_not _ (register-IsWithin k _ world h)

  off-IsWithin :
      (v : CommentViewerIntegration)
      → IsWithin k v
      → IsWithin k (remove_dock (abort_all (advance_probe_generation v)))
  off-IsWithin v h = remove_dock-IsWithin k _ (abort_all-IsWithin k _ (advance-IsWithin k v h))

  switched-IsWithin :
      (on : Bool) (v : CommentViewerIntegration)
      → IsWithin k v
      → IsWithin (k + 61) (set_enabled world on v)
  unfolding set_enabled IsWithin
  switched-IsWithin on v h =
      if_cases (IsWithin (k + 61))
        (v.shutting_down || (v.enabled && on) || (not v.enabled && not on)) (raised v h)
        (if_cases (IsWithin (k + 61)) on
          (begin_probe-IsWithin _ (register-IsWithin k (record v { enabled = true }) world h))
          (raised
            (remove_dock (abort_all (advance_probe_generation (record v { enabled = false }))))
            (off-IsWithin (record v { enabled = false }) h)))

  stopped-IsWithin : (v : CommentViewerIntegration) → IsWithin k v → IsWithin k (shutdown v)
  unfolding shutdown remove_menu IsWithin
  stopped-IsWithin v h =
      if_cases (IsWithin k) v.shutting_down h (off-IsWithin (record v { shutting_down = true }) h)

-- Taking one out leaves the rest.
take_waiting-rank :
    (i : ℕ) (ws : List Waiting)
    → (take_waiting i ws ≡ none)
      ⊎ ((w : Waiting) × ((rest : List Waiting) × ((take_waiting i ws ≡ some (w, rest))
              × (waiting_rank w + rank rest ≡ rank ws))))
unfolding take_waiting rank
take_waiting-rank i [] = inl refl
take_waiting-rank zero (w ∷ ws) = inr (w, (ws, (refl, refl)))
take_waiting-rank (suc i) (w ∷ ws) = elim (take_waiting-rank i ws) [
  | inl e ↦ inl (ap (kept w) e)
  | inr (x, (rest, (e, r))) ↦ inr (x, (w ∷ rest, (ap (kept w) e, omega (arith, r))))
]

run_callback-rank :
    (world : World) (v : CommentViewerIntegration) (o : Option (Waiting × List Waiting))
    → (o ≡ none)
      ⊎ ((w : Waiting) × ((rest : List Waiting) × ((o ≡ some (w, rest))
              × (waiting_rank w + rank rest ≡ rank v.waiting))))
    → ran o + rank (run_callback world o v).waiting ≤ rank v.waiting
unfolding ran run_callback
run_callback-rank world v o (inl e) =
    subst (λ o. ran o + rank (run_callback world o v).waiting ≤ rank v.waiting) (sym e)
      (omega arith)
run_callback-rank world v o (inr (w, (rest, (e, r)))) =
    let n = rank v.waiting - 1 in
    let v' = record v { waiting = rest } in
    let some_left = waiting_rank_positive w in
    let less = out n _ (resume-IsWithin n world v' w (omega (arith, r, some_left))) in
    subst (λ o. ran o + rank (run_callback world o v).waiting ≤ rank v.waiting) (sym e)
      (omega (arith, less, r, some_left))

-- A step that ran a callback left fewer, and another adds at most those of a probe.
step-rank :
    (world : World) (e : Event) (v : CommentViewerIntegration)
    → callbacks_of e v + rank (step world e v).waiting ≤ rank v.waiting + 61 * begins e
unfolding step callbacks_of begins
step-rank world (callback i) v =
    omega
      (arith, run_callback-rank world v (take_waiting i v.waiting) (take_waiting-rank i v.waiting))
step-rank world started v =
    let n = rank v.waiting in
    omega (arith, out (n + 61) _ (started-IsWithin n world v (within n v (omega arith))))
step-rank world opened v =
    let n = rank v.waiting in
    omega (arith, out (n + 61) _ (opened-IsWithin n world v (within n v (omega arith))))
step-rank world (switched on) v =
    let n = rank v.waiting in
    omega (arith, out (n + 61) _ (switched-IsWithin n world on v (within n v (omega arith))))
step-rank world stopped v =
    let n = rank v.waiting in
    omega (arith, out n _ (stopped-IsWithin n world v (within n v (omega arith))))

callbacks-rank :
    (es : List (World × Event)) (v : CommentViewerIntegration)
    → callbacks es v ≤ rank v.waiting + 61 * beginnings es
unfolding callbacks beginnings
callbacks-rank [] v = omega arith
callbacks-rank ((world, e) ∷ es) v =
    omega (arith, step-rank world e v, callbacks-rank es (step world e v))

-- Whatever the surroundings and the Viewer answer, and in whatever order the callbacks run and the
-- operations are called: if nothing waits at first, at most 61 callbacks run for each call of
-- initialize, openViewer and setEnabled.
pub callbacks-bounded :
    (es : List (World × Event)) (v : CommentViewerIntegration)
    → v.waiting ≡ []
    → callbacks es v ≤ 61 * beginnings es
unfolding rank
callbacks-bounded es v h =
    let zero_rank : rank v.waiting ≡ 0 = ap rank h in omega (arith, callbacks-rank es v, zero_rank)
