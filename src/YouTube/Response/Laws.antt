-- ===== src/YouTube/Response/Laws.antt =====
-- Lemmas about the error text of an answer (platformHttpError of core/output-manager.cpp).
use obs_dsk_multistream.Base.{
  ℕ, ◌≤◌, ◌<◌, String, ◌<>◌, ◌≡◌, ◌≢◌, ◌↔◌, refl, not, ◌&&◌, ◌||◌, arith, eq_iff, ltb, leb,
  if_cases, if_under, if◌then◌else◌, is_empty, ne_of_test, Qt,
}
use text.Mathlib.TextLemmas.{append-eq-nil_iff}
use obs_dsk_multistream.YouTube.Response.{
  HttpResponse, is_quota_exceeded_text, youtube_api_error_reasons, youtube_api_error_has_any_reason,
  quota_reasons, failure_text, quota_text, platform_http_error, with_reasons, strip_html,
}

module _ (qt : Qt) where
  prefixed_given : (s t : String) → s ≢ "" → (s <> t) ≢ ""
  prefixed_given s t n h = n (append-eq-nil_iff.0 h).0

  failure_text_given : (status_code : ℕ) (detail : String) → failure_text qt status_code detail ≢ ""
  unfolding failure_text
  failure_text_given status_code detail =
      let status : (if ltb 0 status_code
            then "HTTP " <> qt.number status_code
            else "HTTP request failed")
          ≢ "" =
        if_cases (λ s. s ≢ "") (ltb 0 status_code)
          (prefixed_given "HTTP " (qt.number status_code) (ne_of_test "HTTP " "" refl))
          (ne_of_test "HTTP request failed" "" refl) in
      if_cases (λ s. s ≢ "") (is_empty detail) status
        (prefixed_given _ detail (prefixed_given _ ": " status))

  abbrev detail_of : HttpResponse → String
  detail_of response =
      strip_html qt (if is_empty response.message then response.text else response.message)

  -- What the error text of a success says of the answer.
  abbrev Succeeds : HttpResponse → String → Type 0
  Succeeds response error =
      error ≡ ""
      → (response.transport_error ≡ "")
        × (200 ≤ response.status_code)
        × (response.status_code < 300)

  -- An answer of YouTube counts as a success (its error text is empty) exactly when the transport
  -- reported no error and the status is from 200 to 299.
  pub platform_http_error-success_iff :
      (response : HttpResponse)
      → (platform_http_error qt response ≡ "") ↔ (
          (response.transport_error ≡ "")
          × (200 ≤ response.status_code)
          × (response.status_code < 300))
  unfolding platform_http_error
  platform_http_error-success_iff response = (
    if_under (Succeeds response) (not (is_empty response.transport_error))
        (λ broken h. absurd (ground (arith, broken, h, eq_iff response.transport_error "")))
        (λ intact.
          if_under (Succeeds response)
            (leb 200 response.status_code && ltb response.status_code 300)
            (λ ok h. ground (arith, intact, ok, eq_iff response.transport_error ""))
            (λ bad.
              if_cases (Succeeds response)
                (is_quota_exceeded_text qt (detail_of response)
                  || youtube_api_error_has_any_reason qt response (quota_reasons qt))
                {y = failure_text qt response.status_code
                  (with_reasons qt (detail_of response) (youtube_api_error_reasons qt response))}
                (λ h. absurd (ne_of_test (quota_text qt) "" refl h))
                (λ h. absurd (failure_text_given response.status_code _ h)))),
    λ h. ground (arith, h, eq_iff response.transport_error ""),
  )
