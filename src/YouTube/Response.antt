-- ===== src/YouTube/Response.antt =====
-- core/output-manager.cpp: the reading of a YouTube answer (isQuotaExceededText,
-- youtubeApiErrorReasons, youtubeApiErrorHasAnyReason, isRetryableYouTubeResponse, stripHtml,
-- platformHttpError). Qt parses the JSON body; a response carries what the program reads of it.
pub mod Laws
use obs_dsk_multistream.Base.{
  ℕ, String, ◌<>◌, Bool, true, false, not, ◌==◌, ◌&&◌, ◌||◌, List, [], ◌∷◌, ◌++◌, eqb, ltb, leb,
  if◌then◌else◌, is_empty, Qt,
}

-- HttpResponse of core/http-client.hpp. `reasons` are the texts at `error.reason` and then at
-- `error.errors[].reason`, `message` the one at `error.message` ("" where there is none), and
-- `text` the first 500 characters of the body, trimmed.
pub record HttpResponse : Type 0 where
  pub status_code : ℕ
  pub transport_error : String
  pub text : String
  pub message : String
  pub reasons : List String

pub contains : String → List String → Bool
contains x [] = false
contains x (y ∷ ys) = y == x || contains x ys

module _ (qt : Qt) where
  open qt use {trimmed, to_lower, contains_cs, number, simplified, remove_matches}

  pub strip_html : String → String
  strip_html value = simplified (remove_matches "<[^>]*>" value)

  pub is_quota_exceeded_text : String → Bool
  is_quota_exceeded_text value =
      contains_cs (to_lower value) "quota" || contains_cs (to_lower value) "dailylimitexceeded"

  append_reason : List String → String → List String
  append_reason known value =
      let reason = trimmed value in
      if not (is_empty reason) && not (contains reason known) then known ++ (reason ∷ []) else known

  append_reasons : List String → List String → List String
  append_reasons known [] = known
  append_reasons known (v ∷ vs) = append_reasons (append_reason known v) vs

  pub youtube_api_error_reasons : HttpResponse → List String
  youtube_api_error_reasons response = append_reasons [] response.reasons

  any_of : List String → List String → Bool
  any_of reasons [] = false
  any_of reasons (expected ∷ rest) = contains expected reasons || any_of reasons rest

  pub youtube_api_error_has_any_reason : HttpResponse → List String → Bool
  unfolding any_of
  youtube_api_error_has_any_reason response expected =
      any_of (youtube_api_error_reasons response) expected

  abbrev quota_reasons : List String
  quota_reasons = "quotaExceeded" ∷ "dailyLimitExceeded" ∷ "dailyLimitExceededUnreg" ∷ []

  abbrev rate_reasons : List String
  rate_reasons =
      "userRequestsExceedRateLimit" ∷ "rateLimitExceeded" ∷ "userRateLimitExceeded"
      ∷ "userRateLimitExceededUnreg" ∷ []

  pub is_retryable_youtube_response : HttpResponse → String → Bool
  is_retryable_youtube_response response error =
      if not (is_empty response.transport_error)
      then true
      else if is_quota_exceeded_text error
          || youtube_api_error_has_any_reason response quota_reasons
      then false
      else if eqb response.status_code 403 && youtube_api_error_has_any_reason response rate_reasons
      then true
      else eqb response.status_code 408
        || eqb response.status_code 429
        || leb 500 response.status_code

  join_reasons : List String → String
  join_reasons [] = ""
  join_reasons (x ∷ xs) =
      let rest = ", " <> join_reasons xs in elim xs [ [] ↦ x | y ∷ ys ↦ x <> rest ]

  with_reasons : String → List String → String
  with_reasons detail [] = detail
  with_reasons detail (r ∷ rs) =
      let joined = join_reasons (r ∷ rs) in
      if is_empty detail then joined else (detail <> " [") <> (joined <> "]")

  failure_text : ℕ → String → String
  failure_text status_code detail =
      let status =
        if ltb 0 status_code then "HTTP " <> number status_code else "HTTP request failed" in
      if is_empty detail then status else (status <> ": ") <> detail

  abbrev quota_text : String
  quota_text =
      "YouTube API quota exceeded. RTMP is connected, but DSK cannot switch the YouTube broadcast from preparing to live until quota resets. Enable Auto-start in YouTube Studio or retry with a Google Cloud project that still has quota."

  pub platform_http_error : HttpResponse → String
  unfolding failure_text with_reasons
  platform_http_error response =
      let detail =
        strip_html (if is_empty response.message then response.text else response.message) in
      if not (is_empty response.transport_error)
      then response.transport_error
      else if leb 200 response.status_code && ltb response.status_code 300
      then ""
      else if is_quota_exceeded_text detail
          || youtube_api_error_has_any_reason response quota_reasons
      then quota_text
      else failure_text response.status_code
          (with_reasons detail (youtube_api_error_reasons response))
