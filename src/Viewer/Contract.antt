-- ===== src/Viewer/Contract.antt =====
-- core/comment-viewer-contract.hpp: the answer of the DSK Comment Viewer's integration endpoint.
-- Qt parses the JSON; a url is its text.
use obs_dsk_multistream.Base.{
  ℕ, String, ◌<>◌, Bool, false, not, ◌||◌, ◌==◌, Option, none, some, List, [], ◌∷◌, ℤ, pos, eqb,
  ltb, if◌then◌else◌, is_empty, Qt,
}
use obs_dsk_multistream.Base.Doubles.{Doubles}
use obs_dsk_multistream.Settings.Json.{
  Json, Values, Fields, value, to_string, to_bool, to_array, to_object, to_integer,
}

pub record CommentViewerObsIntegration : Type 0 where
  pub app_version : String
  pub viewer_url : String
  pub can_send_comments : Bool

infixl 5 ◌>>=◌
abbrev ◌>>=◌ {ℓ κ} : {A : Type ℓ} {B : Type κ} → Option A → (A → Option B) → Option B
◌>>=◌ none f = none
◌>>=◌ (some a) f = f a

-- The texts among the capabilities; `none` when one of them is not a text.
abbrev capability_set : Values → Option (List String)
capability_set Values.no_values = some []
capability_set (Values.push (Json.string s) vs) = do rest ← capability_set vs; some (s ∷ rest)
capability_set (Values.push _ vs) = none

abbrev contains : String → List String → Bool
contains s [] = false
contains s (t ∷ ts) = t == s || contains s ts

abbrev is_one : ℤ → Bool
is_one (pos n) = eqb n 1
is_one _ = false

-- The rest of the answer, from the path and the capabilities on.
abbrev permitted : String → String → List String → Option CommentViewerObsIntegration
permitted version path capabilities =
    if not (contains "comments.read" capabilities)
    then none
    else some (record {
      app_version = version;
      viewer_url = "http://127.0.0.1:17321" <> path;
      can_send_comments = contains "comments.send" capabilities;
    })

-- The dock's part: its path and the capabilities.
abbrev dock_integration : String → Fields → Option CommentViewerObsIntegration
dock_integration version dock =
    let path = to_string "" (value "viewerPath" dock) in
    if not (path == "/viewer?dock=chat&send=1") then none else do
      capabilities ← capability_set (to_array (value "capabilities" dock))
      permitted version path capabilities

-- `size` is QString::size.
module _ (qt : Qt) (size : String → ℕ) (dbl : Doubles) where
  open qt use {trimmed}

  abbrev root_integration : Fields → Option CommentViewerObsIntegration
  root_integration root =
      let version = trimmed (to_string "" (value "appVersion" root)) in
      if not (to_bool false (value "ok" root))
        || not (to_string "" (value "service" root) == "dsk-comment-viewer")
        || not (is_one (to_integer dbl (pos 0) (value "schemaVersion" root)))
        || not (to_string "" (value "integration" root) == "obs-browser-dock")
        || is_empty version
        || ltb 128 (size version)
      then none
      else dock_integration version (to_object (value "obsDock" root))

  -- The argument is QJsonDocument::fromJson's answer, `none` on an error.
  unfoldable pub parse_comment_viewer_obs_integration :
      Option Json → Option CommentViewerObsIntegration
  parse_comment_viewer_obs_integration (some (Json.object root)) = root_integration root
  parse_comment_viewer_obs_integration _ = none
