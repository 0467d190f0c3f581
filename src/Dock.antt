-- ===== src/Dock.antt =====
-- ui/visible-refresh-gate.hpp, and the refreshes of ui/stream-controls-dock.cpp that go through it.
-- `visible` is what Qt's isVisible answers.
pub mod Fresh
use obs_dsk_multistream.Base.{ℕ, suc, Bool, true, false, not, ◌||◌, if◌then◌else◌}

-- The flag `dirty_`.
pub record VisibleRefreshGate : Type 0 where
  pub dirty : Bool

unfoldable pub mark_dirty : VisibleRefreshGate → VisibleRefreshGate
mark_dirty g = record { dirty = true }

unfoldable pub take_if_visible : Bool → VisibleRefreshGate → VisibleRefreshGate × Bool
take_if_visible visible g =
    if not visible || not g.dirty then (g, false) else (record { dirty = false }, true)

-- `changes` counts the calls of scheduleRefresh, and `shown` is their number at the last refresh,
-- which puts all into the rows that there is to show.
pub record Dock : Type 0 where
  pub gate : VisibleRefreshGate
  pub refresh_scheduled : Bool
  pub visible : Bool
  pub changes : ℕ
  pub shown : ℕ

unfoldable pub refresh : Dock → Dock
refresh d = record d { shown = d.changes }

unfoldable pub refresh_if_visible : Dock → Dock
refresh_if_visible d =
    let (gate, taken) = take_if_visible d.visible d.gate in
    if taken then refresh (record d { gate = gate }) else record d { gate = gate }

unfoldable pub schedule_refresh : Dock → Dock
schedule_refresh d =
    let d = record d { gate = mark_dirty d.gate; changes = suc d.changes } in
    if not d.visible
    then d
    else if d.refresh_scheduled
    then d
    else record d { refresh_scheduled = true }

-- The callback of the timer of scheduleRefresh.
unfoldable pub timer_elapsed : Dock → Dock
timer_elapsed d = refresh_if_visible (record d { refresh_scheduled = false })

-- QWidget::showEvent makes the dock visible.
unfoldable pub show_event : Dock → Dock
show_event d = refresh_if_visible (record d { visible = true })
