-- ===== src/Examples/Dock.antt =====
-- The theorem on the refreshes of a dock at a concrete run.
use obs_dsk_multistream.Base.{◌≡◌, refl, true, false, [], ◌∷◌, List}
use obs_dsk_multistream.Dock.{
  Dock, mark_dirty, take_if_visible, refresh, refresh_if_visible, schedule_refresh, timer_elapsed,
  show_event,
}
use obs_dsk_multistream.Dock.Fresh.{Event, changed, elapsed, appeared, hidden, step, run, run-shown}

abbrev new_dock : Dock
new_dock = record {
  gate = record { dirty = true };
  refresh_scheduled = false;
  visible = false;
  changes = 0;
  shown = 0;
}

-- A change while the dock is hidden waits for its appearance, and a later one for the timer.
abbrev looked_at : List Event
looked_at =
    changed ∷ appeared ∷ changed ∷ changed ∷ hidden ∷ elapsed ∷ changed ∷ appeared ∷ changed
    ∷ elapsed ∷ []

visible_at_last : (run looked_at new_dock).visible ≡ true
unfolding run step schedule_refresh timer_elapsed show_event refresh_if_visible take_if_visible
    mark_dirty refresh
visible_at_last = refl

idle_at_last : (run looked_at new_dock).refresh_scheduled ≡ false
unfolding run step schedule_refresh timer_elapsed show_event refresh_if_visible take_if_visible
    mark_dirty refresh
idle_at_last = refl

run-shown_example : (run looked_at new_dock).shown ≡ (run looked_at new_dock).changes
run-shown_example = run-shown looked_at new_dock refl refl visible_at_last idle_at_last
