-- ===== src/Settings.antt =====
-- core/settings-store.hpp, core/settings-store.cpp, core/settings-codec.cpp: the plugin's settings
-- as data, as a JSON document and as a file with secrets kept apart in the credential store.
pub mod Json
pub mod Codec
pub mod Saved
pub mod Secrets
pub mod Check
pub mod Disk
pub mod Store
use obs_dsk_multistream.Base.{String, Bool, List}
use obs_dsk_multistream.Target.{OutputTarget}
use obs_dsk_multistream.Layout.{VerticalLayout, VerticalLayoutScene}

pub record SceneLayoutLink : Type 0 where
  pub scene_name : String
  pub scene_uuid : String
  pub vertical_scene_id : String
  pub legacy_template_id : String

pub record PluginSettings : Type 0 where
  pub targets : List OutputTarget
  pub vertical_layout : VerticalLayout
  pub vertical_scenes : List VerticalLayoutScene
  pub active_vertical_scene_id : String
  pub follow_obs_scene : Bool
  pub scene_links : List SceneLayoutLink
