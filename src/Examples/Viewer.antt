-- ===== src/Examples/Viewer.antt =====
-- The theorem on the Comment Viewer's probe and its endpoint's answer at concrete values.
use obs_dsk_multistream.Base.{◌*◌, ◌≤◌, ◌≡◌, refl, true, false, Option, none, some, List, [], ◌∷◌}
use obs_dsk_multistream.Samples.{plain_qt}
use obs_dsk_multistream.Samples.Numbers.{whole_doubles}
use obs_dsk_multistream.Settings.Json.{Json, Values, Fields, value}
use obs_dsk_multistream.Viewer.{CommentViewerIntegration, World}
use obs_dsk_multistream.Viewer.Contract.{
  CommentViewerObsIntegration, parse_comment_viewer_obs_integration,
}
use obs_dsk_multistream.Viewer.Events.{Event, callback, started, callbacks, beginnings}
use obs_dsk_multistream.Viewer.Events.Within.Ending.{callbacks-bounded}

abbrev new_viewer : CommentViewerIntegration
new_viewer = record {
  enabled = false;
  shutting_down = false;
  probe_generation = 0;
  menu = false;
  dock = false;
  waiting = [];
}

abbrev answering : Option CommentViewerObsIntegration → World
answering a = record { installed = true; menu_made = true; dock_made = true; answer = a }

abbrev found : CommentViewerObsIntegration
found = record {
  app_version = "1.2";
  viewer_url = "http://127.0.0.1:17321/viewer?dock=chat&send=1";
  can_send_comments = false;
}

-- OBS starts, the first request fails, the Viewer is launched, and the second is answered.
abbrev launched : List (World × Event)
launched =
    (answering none, started)
    ∷ (answering none, callback 0)
    ∷ (answering none, callback 0)
    ∷ (answering (some found), callback 0)
    ∷ []

callbacks-bounded_example : callbacks launched new_viewer ≤ 61 * beginnings launched
callbacks-bounded_example = callbacks-bounded launched new_viewer refl

abbrev answer_fields : Fields
answer_fields = Fields.insert "ok" (Json.bool true) (
    Fields.insert "service" (Json.string "dsk-comment-viewer") (
      Fields.insert "schemaVersion" (Json.number 2) (
        Fields.insert "integration" (Json.string "obs-browser-dock") (
          Fields.insert "appVersion" (Json.string "1.2") (
            Fields.insert "obsDock"
              (Json.object (
                Fields.insert "viewerPath" (Json.string "/viewer?dock=chat&send=1") (
                  Fields.insert "capabilities"
                    (Json.array (Values.push (Json.string "comments.read") Values.no_values))
                    Fields.no_fields)))
              Fields.no_fields)))))

parsed :
    parse_comment_viewer_obs_integration plain_qt
      (λ s. 3)
      whole_doubles
      (some (Json.object answer_fields))
    ≡ some found
unfolding parse_comment_viewer_obs_integration value
parsed = refl
