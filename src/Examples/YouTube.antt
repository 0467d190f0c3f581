-- ===== src/Examples/YouTube.antt =====
-- The theorems about YouTube's answers at concrete values.
use obs_dsk_multistream.Base.{length, ◌≡◌, refl, [], ◌∷◌, if◌then◌else◌, pos}
use mathlib.Core.WellFounded.{Acc}
use obs_dsk_multistream.Target.{TargetState}
use obs_dsk_multistream.YouTube.Response.{HttpResponse}
use obs_dsk_multistream.YouTube.Request.{Ticket, Request, YoutubeAnswer, stream_batch}
use obs_dsk_multistream.Manager.State.{find_target, lookup_session, session_for_target}
use obs_dsk_multistream.Manager.Operation.{can_continue_platform_start, youtube_operation_matches}
use obs_dsk_multistream.Manager.Requests.{goes_on}
use obs_dsk_multistream.Manager.Answers.{answered}
use obs_dsk_multistream.Manager.Answers.Follows.{Follows}
use obs_dsk_multistream.Manager.Answers.Follows.Sent.{requests, unlogged}
use obs_dsk_multistream.Manager.Answers.Follows.Ending.{Next, requests_end}
use obs_dsk_multistream.Manager.Answers.Balance.{in_flight}
use obs_dsk_multistream.Manager.Answers.Balance.Answered.{answered-IsBalanced}
use obs_dsk_multistream.Samples.{granting, channel, asking, show, unavailable_answer}

abbrev ticket : Ticket
ticket = record { target_id = "a"; serial = 1; attempt = 0; generation = 4 }

-- The stream of the show is looked up.
abbrev batch : Request
batch = stream_batch "access" (show ∷ []) ("s" ∷ []) 0 []

abbrev ok_response : HttpResponse
ok_response = record unavailable_answer { status_code = 200 }

-- The stream is active and has the channel's key.
abbrev active_stream : YoutubeAnswer
active_stream = record {
  response = ok_response;
  access_token = "";
  expires_in = pos 3600;
  broadcasts = [];
  streams = ("s", record { stream_status = "active"; stream_name = "key" }) ∷ [];
  next_page_token = "";
}

requests_end_example : Acc Next (ticket, batch)
requests_end_example = requests_end ticket batch

answered-IsBalanced_example :
    length (requests (answered granting ticket batch active_stream (unlogged asking)).log) ≡ (
      if in_flight ticket (answered granting ticket batch active_stream (unlogged asking))
      then 1
      else 0)
unfolding find_target goes_on can_continue_platform_start youtube_operation_matches lookup_session
    session_for_target
answered-IsBalanced_example =
    answered-IsBalanced granting ticket batch active_stream
      (record channel { state = TargetState.live }) asking refl refl
