-- ===== src/Manager/Requests/Kept.antt =====
-- What the requests that open a YouTube operation keep (core/output-manager.cpp).
use obs_dsk_multistream.Base.{◌≡◌, some, ℕ, String, not, if_cases, Option-cases, inl, inr, List, []}
use obs_dsk_multistream.Target.{OutputTarget}
use obs_dsk_multistream.YouTube.Selection.{Broadcast}
use obs_dsk_multistream.YouTube.Request.{Ticket, Request, token_request, broadcast_page}
use obs_dsk_multistream.Manager.State.{Env, Manager, find_target}
use obs_dsk_multistream.Manager.Operation.{
  oauth_effective_client_credentials, is_complete, stop_youtube_auto_start_if_timed_out,
}
use obs_dsk_multistream.Manager.Operation.Kept.{IsKept, complete-kept, stop_auto_start-kept}
use obs_dsk_multistream.Manager.Requests.{
  goes_on, while_going_on, warn, unless_timed_out, ask_token, refresh_youtube_access_token,
  list_youtube_broadcast_page, find_broadcast, list_youtube_broadcasts,
}

module _ (env : Env) (Q : Manager → Type 0) (Allowed : Ticket → Request → Type 0)
    (kept : IsKept env Q Allowed) (k : Ticket) where
  open kept use {platform, warned, sent}

  pub while_going_on-kept :
      (go : OutputTarget → Manager → Manager) (m : Manager)
      → Q m
      → ((target : OutputTarget) → find_target m k.target_id ≡ some target → Q (go target m))
      → Q (while_going_on k go m)
  unfolding while_going_on
  while_going_on-kept go m v w = elim (Option-cases (find_target m k.target_id)) [
    | inl missing ↦ rw (missing, while_going_on) v
    | inr (target, found) ↦
        rw (found, while_going_on) (if_cases Q (goes_on k m target) (w target found) v)
  ]

  pub warn-kept : (message : String) (m : Manager) → Q m → Q (warn env k message m)
  unfolding warn
  warn-kept message m v =
      warned k.target_id message k.serial _
        (complete-kept env Q Allowed kept k.target_id k.serial k.generation m v)

  pub unless_timed_out-kept :
      (go : Manager → Manager) (m : Manager)
      → Q m
      → ((m' : Manager) → Q m' → Q (go m'))
      → Q (unless_timed_out env k go m)
  unfolding unless_timed_out
  unless_timed_out-kept go m v w =
      let p = stop_youtube_auto_start_if_timed_out env k.target_id k.serial k.generation m in
      let stopped : Q p.0 =
        stop_auto_start-kept env Q Allowed kept k.target_id k.serial k.generation m v in
      if_cases Q p.1 stopped (w p.0 stopped)

  pub refresh_youtube_access_token-kept :
      ((c : _) (t : String) → Allowed k (token_request c t))
      → (m : Manager) → Q m
      → Q (refresh_youtube_access_token env k m)
  unfolding refresh_youtube_access_token ask_token
  refresh_youtube_access_token-kept allowed m v =
      while_going_on-kept (ask_token env k) m v (λ target found.
        if_cases Q
          (not (
            is_complete env (
              oauth_effective_client_credentials env target.auth_mode target.oauth_client_id
                target.oauth_client_secret)))
          (warn-kept _ m v) (sent k _ m (allowed _ _) v))

  pub list_youtube_broadcast_page-kept :
      (token status page : String) (number : ℕ) (bs : List Broadcast)
      → Allowed k (broadcast_page token status page number bs)
      → (m : Manager) → Q m
      → Q (list_youtube_broadcast_page env k token status page number bs m)
  unfolding list_youtube_broadcast_page
  list_youtube_broadcast_page-kept token status page number bs allowed m v =
      while_going_on-kept _ m v
        (λ target found. unless_timed_out-kept _ m v (λ m' v'. sent k _ m' allowed v'))

  pub list_youtube_broadcasts-kept :
      (token : String)
      → Allowed k (broadcast_page token "upcoming" "" 0 [])
      → (m : Manager) → Q m
      → Q (list_youtube_broadcasts env k token m)
  unfolding list_youtube_broadcasts find_broadcast
  list_youtube_broadcasts-kept token allowed m v = while_going_on-kept _ m v (λ target found.
      unless_timed_out-kept (find_broadcast env k token) m v (λ m' v'.
        list_youtube_broadcast_page-kept token "upcoming" "" 0 [] allowed _
          (platform k.target_id k.serial _ _ _ m' v')))
