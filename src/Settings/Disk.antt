-- ===== src/Settings/Disk.antt =====
-- The files that core/settings-store.cpp reads and writes: the settings, their backup, and invalid
-- settings that were set aside, each under its path.
pub mod Laws
use obs_dsk_multistream.Base.{
  ℕ, zero, suc, ◌+◌, String, ◌≡◌, Bool, true, false, not, ◌==◌, ◌&&◌, ◌||◌, Option, none, some,
  List, [], ◌∷◌, if◌then◌else◌, is_some,
}

pub record File {ℓ} (B : Type ℓ) : Type ℓ where
  pub path : String
  pub content : B

module _ {ℓ} {B : Type ℓ} where
  unfoldable pub content_at : String → List (File B) → Option B
  content_at path [] = none
  content_at path (f ∷ fs) = if f.path == path then some f.content else content_at path fs

  abbrev pub exists : String → List (File B) → Bool
  exists path fs = is_some (content_at path fs)

  unfoldable pub remove : String → List (File B) → List (File B)
  remove path [] = []
  remove path (f ∷ fs) = let rest = remove path fs in if f.path == path then rest else f ∷ rest

  -- QSaveFile::commit
  unfoldable pub replace : String → B → List (File B) → List (File B)
  replace path b fs = record { path = path; content = b } ∷ remove path fs
