-- ===== src/Manager/Answers/Follows/Sent.antt =====
-- The requests that an answer of YouTube leads to are those that may follow on it
-- (core/output-manager.cpp).
use obs_dsk_multistream.Base.{
  arith, refl, ◌∙◌, ℕ, String, ◌≡◌, not, ◌==◌, List, [], ◌∷◌, if_cases, All, Option-cases, inl, inr,
}
use obs_dsk_multistream.Target.{OutputTarget}
use obs_dsk_multistream.Runtime.{PlatformLiveState}
use obs_dsk_multistream.YouTube.Warning.{is_youtube_api_warning_text}
use obs_dsk_multistream.YouTube.Request.{Ticket, Request, YoutubeAnswer}
use obs_dsk_multistream.Manager.State.{
  Env, Effect, Manager, find_target, session_matches, update_session, update_target,
  with_runtime_status, update_runtime_stats, set_runtime_platform, set_warning,
  set_target_api_warning, clear_warning, clear_target_api_warning, persistent_status_message,
  persistent_targets_changed, send_youtube_request,
}
use obs_dsk_multistream.Manager.Operation.Kept.{IsKept}
use obs_dsk_multistream.Manager.Answers.{answered}
use obs_dsk_multistream.Manager.Answers.Follows.{Follows}
use obs_dsk_multistream.Manager.Answers.Follows.Kept.{answered-kept}

-- The requests among the effects.
abbrev pub requests : List Effect → List (Ticket × Request)
requests [] = []
requests (send_youtube_request k r ∷ es) = (k, r) ∷ requests es
requests (e ∷ es) = requests es

unfoldable pub asked_of : Manager → List (Ticket × Request)
asked_of m = requests m.log

told-asked_of :
    (id text : String) (m : Manager) → asked_of (persistent_status_message id text m) ≡ asked_of m
unfolding asked_of persistent_status_message
told-asked_of id text m = ground arith

announced-asked_of :
    (id : String) (m : Manager) → asked_of (persistent_targets_changed id m) ≡ asked_of m
unfolding asked_of persistent_targets_changed
announced-asked_of id m = ground arith

module _ (env : Env) where
  pub platform-asked_of :
      (id : String) (serial : ℕ) (state : PlatformLiveState) (message error : String) (m : Manager)
      → asked_of (set_runtime_platform env id serial state message error m) ≡ asked_of m
  unfolding asked_of set_runtime_platform update_runtime_stats with_runtime_status
  platform-asked_of id serial state message error m = ground arith

  pub target-asked_of :
      (id : String) (f : OutputTarget → OutputTarget) (m : Manager)
      → asked_of (update_target id f m) ≡ asked_of m
  unfolding asked_of update_target
  target-asked_of id f m = refl

  warning-asked_of :
      (target : OutputTarget) (message : String) (serial : ℕ) (m : Manager)
      → asked_of (set_warning env target message serial m) ≡ asked_of m
  unfolding set_warning
  warning-asked_of target message serial m =
      let marked = update_target target.id (λ t. record t { last_error = message }) m in
      let written : (state : PlatformLiveState) (shown text : String)
          → asked_of (
              persistent_status_message target.id text
                (set_runtime_platform env target.id serial state shown message marked))
            ≡ asked_of m =
        λ state shown text.
          told-asked_of target.id text _
          ∙ (platform-asked_of target.id serial state shown message marked
              ∙ target-asked_of target.id _ m) in
      if_cases (λ (m' : Manager). asked_of m' ≡ asked_of m) (not (target.last_error == message))
        (announced-asked_of target.id _ ∙ written _ _ _) (written _ _ _)

  pub warned-asked_of :
      (id message : String) (serial : ℕ) (m : Manager)
      → asked_of (set_target_api_warning env id message serial m) ≡ asked_of m
  unfolding set_target_api_warning
  warned-asked_of id message serial m = elim (Option-cases (find_target m id)) [
    | inl missing ↦ rw (missing, set_target_api_warning) refl
    | inr (target, found) ↦
        rw (found, set_target_api_warning)
          (if_cases (λ (m' : Manager). asked_of m' ≡ asked_of m) (session_matches m id serial)
            (warning-asked_of target message serial m) refl)
  ]

  clear-asked_of :
      (target : OutputTarget) (m : Manager) → asked_of (clear_warning env target m) ≡ asked_of m
  unfolding clear_warning
  clear-asked_of target m =
      announced-asked_of target.id _
      ∙ if_cases (λ (m' : Manager). asked_of m' ≡ asked_of m) _
          (platform-asked_of target.id _ _ _ _ _ ∙ target-asked_of target.id _ m)
          (target-asked_of target.id _ m)

  pub cleared-asked_of :
      (id : String) (m : Manager) → asked_of (clear_target_api_warning env id m) ≡ asked_of m
  unfolding clear_target_api_warning
  cleared-asked_of id m = elim (Option-cases (find_target m id)) [
    | inl missing ↦ rw (missing, clear_target_api_warning) refl
    | inr (target, found) ↦
        rw (found, clear_target_api_warning)
          (if_cases (λ (m' : Manager). asked_of m' ≡ asked_of m)
            (is_youtube_api_warning_text target.last_error) (clear-asked_of target m) refl)
  ]

  module _ (P : Ticket × Request → Type 0) where
    Sends : Manager → Type 0
    Sends m = All P (asked_of m)

    same-Sends : (m m' : Manager) → asked_of m' ≡ asked_of m → Sends m → Sends m'
    unfolding Sends
    same-Sends m m' e v = rw e v

    sends : IsKept env Sends (λ k r. P (k, r))
    unfolding Sends asked_of update_session with_runtime_status
    sends = record {
      platform = λ id serial state message error m v.
          same-Sends m (set_runtime_platform env id serial state message error m)
            (platform-asked_of id serial state message error m) v;
      warned = λ id message serial m v.
          same-Sends m (set_target_api_warning env id message serial m)
            (warned-asked_of id message serial m) v;
      cleared =
          λ id m v. same-Sends m (clear_target_api_warning env id m) (cleared-asked_of id m) v;
      session_written = λ id f same m v. v;
      status_written = λ id f m v. v;
      told = λ text m v. v;
      asked = λ id serial generation choices m v. v;
      polled = λ delay id serial generation poll attempt m v. v;
      sent = λ k r m allowed v. (allowed, v);
    }

-- The manager before a call, with an empty log.
abbrev pub unlogged : Manager → Manager
unlogged m = record m { log = [] }

pub answered-Follows :
    (env : Env) (k : Ticket) (r : Request) (a : YoutubeAnswer) (m : Manager)
    → All
        (λ (p : Ticket × Request). Follows env (unlogged m) k r a p.0 p.1)
        (requests (answered env k r a (unlogged m)).log)
unfolding Sends asked_of
answered-Follows env k r a m =
    let P : Ticket × Request → Type 0 = λ p. Follows env (unlogged m) k r a p.0 p.1 in
    answered-kept env (Sends env P) (λ k' r'. P (k', r')) (sends env P) k r a (unlogged m)
      (λ k' r' f. f) tt
