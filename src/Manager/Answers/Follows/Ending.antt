-- ===== src/Manager/Answers/Follows/Ending.antt =====
-- How long the requests of a YouTube operation can follow on one another (core/output-manager.cpp).
use obs_dsk_multistream.Base.{
  ne_of_test, sym, subst, ◌++◌, ℕ, zero, suc, ◌+◌, ◌-◌, ◌≤◌, ◌<◌, String, ◌≡◌, ◌⊎◌, refl, List, [],
  ◌∷◌, arith, length, All, inl, inr,
}
use mathlib.Core.WellFounded.{Acc}
use obs_dsk_multistream.YouTube.Selection.{Broadcast, Stream}
use obs_dsk_multistream.YouTube.Request.{
  Ticket, Request, YoutubeAnswer, token_request, broadcast_page, stream_batch, transition,
}
use obs_dsk_multistream.Manager.State.{Env, Manager}
use obs_dsk_multistream.Manager.Answers.{max_broadcast_pages, next_offset, answered}
use obs_dsk_multistream.Manager.Answers.Follows.{
  AfterPage, next_page, active_pages, first_batch, AfterBatch, next_batch, switched_on, Follows,
}
use obs_dsk_multistream.Manager.Answers.Follows.Sent.{requests, unlogged, answered-Follows}

-- One of the elements.
abbrev pub Member : Ticket × Request → List (Ticket × Request) → Type 0
Member p [] = ⊥
Member p (q ∷ qs) = (q ≡ p) ⊎ Member p qs

member-All :
    (P : Ticket × Request → Type 0) (p : Ticket × Request) (qs : List (Ticket × Request))
    → All P qs
    → Member p qs
    → P p
member-All P p [] h i = elim i [ ]
member-All P p (q ∷ qs) h (inl e) = subst P e h.0
member-All P p (q ∷ qs) h (inr i) = member-All P p qs h.1 i

-- The second request is sent when some manager hears some answer to the first.
pub data LeadsTo (r : Ticket × Request) : Ticket × Request → Type 0 where
  hears :
      {r' : Ticket × Request} (env : Env) (m : Manager) (a : YoutubeAnswer)
      → Member r' (requests (answered env r.0 r.1 a (unlogged m)).log)
      → LeadsTo r r'

abbrev pub Next : Ticket × Request → Ticket × Request → Type 0
Next r' r = LeadsTo r r'

leads-Follows :
    (r r' : Ticket × Request)
    → LeadsTo r r'
    → (env : Env) × (m : Manager) × (a : YoutubeAnswer) × Follows env m r.0 r.1 a r'.0 r'.1
leads-Follows r r' (hears env m a i) = (
  env,
  unlogged m,
  a,
  member-All (λ p. Follows env (unlogged m) r.0 r.1 a p.0 p.1) r' _
      (answered-Follows env r.0 r.1 a m) i,
)

-- No request follows on a transition.
transition_ends : (k : Ticket) (token id status : String) → Acc Next (k, transition token id status)
transition_ends k token id status =
    Acc.intro _
      (λ r' l. let (env, m, a, f) = leads-Follows (k, transition token id status) r' l in absurd f)

next_offset-lt :
    (ids : List String) (offset : ℕ)
    → next_offset ids offset < length ids
    → length ids - next_offset ids offset < length ids - offset
unfolding next_offset
next_offset-lt ids offset h = ground arith

-- A batch is followed by fewer batches than there are ids left.
AfterBatch-Acc :
    (left : ℕ) (env : Env) (m : Manager) (k : Ticket) (token : String) (bs : List Broadcast)
    (ids : List String) (offset : ℕ) (all : List (String × Stream)) {k' : Ticket} {r' : Request}
    → length ids - offset ≤ suc left
    → ((off : ℕ) → length ids - off ≤ left → Acc Next (k, stream_batch token bs ids off all))
    → AfterBatch env m k token bs ids offset all k' r'
    → Acc Next (k', r')
AfterBatch-Acc left env m k token bs ids offset all h later (next_batch more) =
    later _ (omega (arith, h, next_offset-lt ids offset more))
AfterBatch-Acc left env m k token bs ids offset all h later (switched_on target b n found s) =
    transition_ends _ _ _ _

batches_end :
    (left : ℕ) (k : Ticket) (token : String) (bs : List Broadcast) (ids : List String) (offset : ℕ)
    (streams : List (String × Stream))
    → length ids - offset ≤ left
    → Acc Next (k, stream_batch token bs ids offset streams)
batches_end zero k token bs ids offset streams h = Acc.intro _ (λ r' l.
    let (env, m, a, f) = leads-Follows (k, stream_batch token bs ids offset streams) r' l in
    no_batch env m (streams ++ a.streams) r'.0 r'.1 f)
  where
    no_batch :
        (env : Env) (m : Manager) (all : List (String × Stream)) (k' : Ticket) (r' : Request)
        → AfterBatch env m k token bs ids offset all k' r'
        → Acc Next (k', r')
    no_batch env m all k' r' (next_batch more) =
        absurd (omega (arith, h, next_offset-lt ids offset more))
    no_batch env m all k' r' (switched_on target b n found s) = transition_ends _ _ _ _
batches_end (suc left) k token bs ids offset streams h = Acc.intro _ (λ r' l.
    let (env, m, a, f) = leads-Follows (k, stream_batch token bs ids offset streams) r' l in
    AfterBatch-Acc left env m k token bs ids offset (streams ++ a.streams) h
      (λ off small. batches_end left k token bs ids off (streams ++ a.streams) small) f)

-- The pages of a list come to an end, and the streams follow, or the other list.
module _ (status : String)
    (other : (k : Ticket) (token : String) (all : List Broadcast)
      → status ≡ "upcoming"
      → Acc Next (k, broadcast_page token "active" "" 0 all)) where
  AfterPage-Acc :
      (k : Ticket) (token : String) (number : ℕ) (all : List Broadcast) (a : YoutubeAnswer)
      {r' : Request}
      → (number + 1 < max_broadcast_pages
          → Acc Next (k, broadcast_page token status a.next_page_token (number + 1) all))
      → AfterPage token status number all a r'
      → Acc Next (k, r')
  AfterPage-Acc k token number all a next (next_page more) = next more
  AfterPage-Acc k token number all a next (active_pages e) = other k token all e
  AfterPage-Acc k token number all a next (first_batch ids) =
      batches_end (length ids) k token all ids 0 [] (omega arith)

  pages_end :
      (left : ℕ) (k : Ticket) (token page : String) (number : ℕ) (bs : List Broadcast)
      → max_broadcast_pages - number ≤ left
      → Acc Next (k, broadcast_page token status page number bs)
  pages_end zero k token page number bs h = Acc.intro _ (λ r' l.
      let (env, m, a, (e, f)) =
        leads-Follows (k, broadcast_page token status page number bs) r' l in
      AfterPage-Acc r'.0 token number (bs ++ a.broadcasts) a
        (λ more. absurd (omega (arith, h, more))) f)
  pages_end (suc left) k token page number bs h = Acc.intro _ (λ r' l.
      let (env, m, a, (e, f)) =
        leads-Follows (k, broadcast_page token status page number bs) r' l in
      AfterPage-Acc r'.0 token number (bs ++ a.broadcasts) a
        (λ more. pages_end left r'.0 token _ (number + 1) _ (omega (arith, h, more))) f)

active-ne-upcoming : ◌≡◌ {A = String} "active" "upcoming" → ⊥
active-ne-upcoming e = ne_of_test "active" "upcoming" refl e

active_pages_end :
    (k : Ticket) (token page : String) (number : ℕ) (bs : List Broadcast)
    → Acc Next (k, broadcast_page token "active" page number bs)
active_pages_end k token page number bs =
    pages_end "active" (λ k token all e. absurd (active-ne-upcoming e)) max_broadcast_pages k token
      page number bs (omega arith)

any_pages_end :
    (k : Ticket) (token status page : String) (number : ℕ) (bs : List Broadcast)
    → Acc Next (k, broadcast_page token status page number bs)
any_pages_end k token status page number bs =
    pages_end status (λ k token all e. active_pages_end k token "" 0 all) max_broadcast_pages k
      token page number bs (omega arith)

-- Whatever YouTube answers and whatever happens to the manager between the answers, the requests of
-- an operation that follow on one another come to an end: the order in which one request leads to
-- another is well-founded.
pub requests_end : (k : Ticket) (r : Request) → Acc Next (k, r)
requests_end k (token_request credentials refresh_token) = Acc.intro _ (λ r' l.
    let (env, m, a, (e, f)) = leads-Follows (k, token_request credentials refresh_token) r' l in
    subst (λ r. Acc Next (r'.0, r)) (sym f) (any_pages_end r'.0 a.access_token "upcoming" "" 0 []))
requests_end k (broadcast_page token status page number bs) =
    any_pages_end k token status page number bs
requests_end k (stream_batch token bs ids offset streams) =
    batches_end (length ids) k token bs ids offset streams (omega arith)
requests_end k (transition token id status) = transition_ends k token id status
