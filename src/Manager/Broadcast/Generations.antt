-- ===== src/Manager/Broadcast/Generations.antt =====
-- The generation counters of YouTube operations and polls (core/output-manager.cpp).
use obs_dsk_multistream.Manager.Operation.{poll_allowed, schedule_poll}
use obs_dsk_multistream.Base.{ℕ, ◌+◌, String, ◌≡◌, refl, true, some, List, [], ◌∷◌, arith}
use obs_dsk_multistream.Manager.State.{
  Session, Manager, u64, lookup_session, modify_session, session_for_target, update_session,
}

pub lookup-modify :
    (id : String) (f : Session → Session) (ss : List Session) (s : Session)
    → ((t : Session) → (f t).target_id ≡ t.target_id)
    → lookup_session id ss ≡ some s
    → lookup_session id (modify_session id f ss) ≡ some (f s)
unfolding lookup_session modify_session
lookup-modify id f [] s same h = cc
lookup-modify id f (t ∷ ss) s same h = ground (arith, same t, lookup-modify id f ss s same)

-- The session's state once a poll was scheduled.
abbrev pub polled : Session → Session
polled s = record s { youtube_poll_generation = u64 (s.youtube_poll_generation + 1) }

pub schedule_poll-session :
    (id : String) (serial generation attempt delay : ℕ) (m : Manager) (s : Session)
    → session_for_target m id ≡ some s
    → poll_allowed s serial generation ≡ true
    → session_for_target (schedule_poll id serial generation attempt delay m) id ≡ some (polled s)
unfolding session_for_target schedule_poll update_session
schedule_poll-session id serial generation attempt delay m s h ok =
    rw (h, schedule_poll)
      (rw ok (
        lookup-modify id
          (λ t. record t { youtube_poll_generation = u64 (s.youtube_poll_generation + 1) })
          m.sessions s (λ t. refl) h))
