-- ===== src/YouTube/Request.antt =====
-- core/output-manager.cpp: the requests of a YouTube operation, as their completions have captured
-- them, and what the completions read of an answer. Qt parses the JSON.
use obs_dsk_multistream.Base.{ℕ, String, List, ℤ}
use obs_dsk_multistream.YouTube.Response.{HttpResponse}
use obs_dsk_multistream.YouTube.Selection.{Broadcast, Stream}

-- OAuthClientCredentials of core/oauth-provider.hpp.
pub record OauthClientCredentials : Type 0 where
  pub client_id : String
  pub client_secret : String

-- The target, the session and the operation that a request belongs to, and the attempt.
pub record Ticket : Type 0 where
  pub target_id : String
  pub serial : ℕ
  pub attempt : ℕ
  pub generation : ℕ

pub data Request : Type 0 where
  -- refreshYouTubeAccessToken: the credentials and the refresh token
  token_request : OauthClientCredentials → String → Request
  -- listYouTubeBroadcastPage: token, status, page token, page number, broadcasts so far
  broadcast_page : String → String → String → ℕ → List Broadcast → Request
  -- listYouTubeStreamBatch: token, broadcasts, stream ids, offset, streams so far
  stream_batch : String → List Broadcast → List String → ℕ → List (String × Stream) → Request
  -- transitionYouTubeBroadcast: token, broadcast id, new status
  transition : String → String → String → Request

-- The fields of the body are "" or empty where they are missing; `expires_in` is then 3600.
pub record YoutubeAnswer : Type 0 where
  pub response : HttpResponse
  pub access_token : String
  pub expires_in : ℤ
  pub broadcasts : List Broadcast
  -- each with its id
  pub streams : List (String × Stream)
  pub next_page_token : String
