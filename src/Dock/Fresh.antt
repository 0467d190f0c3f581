-- ===== src/Dock/Fresh.antt =====
-- ui/stream-controls-dock.cpp: a visible dock shows every change.
use obs_dsk_multistream.Base.{
  Bool-cases, inl, inr, true, false, ◌≡◌, List, [], ◌∷◌, arith, if◌then◌else◌,
}
use obs_dsk_multistream.Dock.{
  Dock, mark_dirty, take_if_visible, refresh, refresh_if_visible, schedule_refresh, timer_elapsed,
  show_event,
}

-- What happens to a dock; the timer runs only while a refresh is scheduled.
pub data Event : Type 0 where
  changed elapsed appeared hidden : Event

unfoldable pub step : Event → Dock → Dock
step changed d = schedule_refresh d
step elapsed d = if d.refresh_scheduled then timer_elapsed d else d
step appeared d = show_event d
step hidden d = record d { visible = false }

unfoldable pub run : List Event → Dock → Dock
run [] d = d
run (e ∷ es) d = run es (step e d)

-- What is not dirty shows every change, and a refresh is scheduled for a visible dock that is dirty.
abbrev IsFresh : Dock → Type 0
IsFresh d =
    (d.gate.dirty ≡ false → d.shown ≡ d.changes)
    × (d.visible ≡ true → d.gate.dirty ≡ true → d.refresh_scheduled ≡ true)

step-IsFresh : (e : Event) (d : Dock) → IsFresh d → IsFresh (step e d)
unfolding step schedule_refresh timer_elapsed show_event refresh_if_visible take_if_visible
    mark_dirty refresh
step-IsFresh changed d h = ground arith
step-IsFresh elapsed d h = ground arith
step-IsFresh appeared d h = ground arith
step-IsFresh hidden d h = ground arith

run-IsFresh : (es : List Event) (d : Dock) → IsFresh d → IsFresh (run es d)
unfolding run
run-IsFresh [] d h = h
run-IsFresh (e ∷ es) d h = run-IsFresh es (step e d) (step-IsFresh e d h)

-- From a dock whose gate is dirty, as it is at first, and which is not visible: after any changes,
-- appearances, disappearances and runs of the timer, a visible dock without a scheduled refresh
-- shows every change.
pub run-shown :
    (es : List Event) (d : Dock)
    → d.gate.dirty ≡ true
    → d.visible ≡ false
    → (run es d).visible ≡ true
    → (run es d).refresh_scheduled ≡ false
    → (run es d).shown ≡ (run es d).changes
run-shown es d dirty away visible idle =
    let fresh = run-IsFresh es d ((λ e. absurd (cc (dirty, e))), (λ e h. absurd (cc (away, e)))) in
    elim (Bool-cases (run es d).gate.dirty) [
      | inl e ↦ absurd (cc (fresh.1 visible e, idle))
      | inr e ↦ fresh.0 e
    ]
