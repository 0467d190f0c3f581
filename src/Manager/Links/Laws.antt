-- ===== src/Manager/Links/Laws.antt =====
-- core/output-manager.cpp: what the operations on scene links do to the links, and that they leave
-- the sessions alone.
use obs_dsk_multistream.Base.{
  String, ◌≡◌, refl, Bool, true, false, not, ◌&&◌, Option, none, some, List, [], ◌∷◌, arith,
  is_empty, if_cases, eq_refl, ◌==◌, eq_iff,
}
use obs_dsk_multistream.Layout.{LayoutManager}
use obs_dsk_multistream.Settings.{SceneLayoutLink, PluginSettings}
use obs_dsk_multistream.Manager.State.{Env, Manager}
use obs_dsk_multistream.Manager.Save.{save}
use obs_dsk_multistream.Manager.Save.Frame.{save-core, save-scenes, save-taken}
use obs_dsk_multistream.Manager.Layouts.Undone.{save_vertical_layout-core}
use obs_dsk_multistream.Manager.Links.{
  is_current, is_link_of, clean_link, put_link, save_links, upsert_scene_link, remove_scene_link,
  current_link, linked_layouts, apply_layouts, apply_link, drop_link, apply_linked_scene,
  handle_obs_scene_changed, set_follow_obs_scene,
}

module _ (env : Env) where
  open env use {trimmed, trimmed_idem, obs_scene_uuid_for_name}

  apply_layouts-core :
      (name : String) (layouts : Option LayoutManager) (m : Manager)
      → (apply_layouts env name layouts m).0.core ≡ m.core
  unfolding apply_layouts
  apply_layouts-core name none m = refl
  apply_layouts-core name (some layouts) m =
      ground (arith, save_vertical_layout-core env (record m { layouts = layouts }))

  apply_link-core :
      (name : String) (link : Option SceneLayoutLink) (m : Manager)
      → (apply_link env name link m).0.core ≡ m.core
  unfolding apply_link
  apply_link-core name none m = refl
  apply_link-core name (some link) m = apply_layouts-core name (linked_layouts env link m.layouts) m

  apply_linked_scene-core :
      (name : String) (m : Manager) → (apply_linked_scene env name m).0.core ≡ m.core
  unfolding apply_linked_scene
  apply_linked_scene-core name m =
      if_cases (λ (r : Manager × Bool). r.0.core ≡ m.core) (is_empty name) refl
        (apply_link-core name (current_link env name m.scene_links) m)

  pub handle_obs_scene_changed-core : (m : Manager) → (handle_obs_scene_changed env m).core ≡ m.core
  unfolding handle_obs_scene_changed
  handle_obs_scene_changed-core m =
      ground (arith, apply_linked_scene-core env.current_obs_scene_name m)

  pub set_follow_obs_scene-core :
      (follow : Bool) (m : Manager) → (set_follow_obs_scene env follow m).core ≡ m.core
  unfolding set_follow_obs_scene
  set_follow_obs_scene-core follow m =
      let saved : Manager × Bool = save env (record m { follow_obs_scene = follow }) in
      ground (
        arith,
        handle_obs_scene_changed-core saved.0,
        save-core env (record m { follow_obs_scene = follow }),
      )

  save_links-core :
      (error : String) (links : List SceneLayoutLink) (m : Manager)
      → (save_links env error links m).core ≡ m.core
  unfolding save_links
  save_links-core error links m = ground (arith, save-core env (record m { scene_links = links }))

  pub upsert_scene_link-core :
      (link : SceneLayoutLink) (m : Manager) → (upsert_scene_link env link m).core ≡ m.core
  unfolding upsert_scene_link
  upsert_scene_link-core link m = ground (
    arith,
    save_links-core "Failed to save vertical scene link."
        (put_link env (clean_link env link) m.scene_links) m,
  )

  drop_link-core :
      (links : Option (List SceneLayoutLink)) (m : Manager) → (drop_link env links m).core ≡ m.core
  unfolding drop_link
  drop_link-core none m = refl
  drop_link-core (some links) m = save_links-core _ links m

  pub remove_scene_link-core :
      (name uuid : String) (m : Manager) → (remove_scene_link env name uuid m).core ≡ m.core
  unfolding remove_scene_link
  remove_scene_link-core name uuid m = drop_link-core _ m

  is_link_of-own :
      (l : SceneLayoutLink)
      → trimmed l.scene_name ≡ l.scene_name
      → trimmed l.scene_uuid ≡ l.scene_uuid
      → is_link_of env l.scene_name l.scene_uuid l ≡ true
  unfolding is_link_of
  is_link_of-own l n u =
      if_cases (λ b. b ≡ true)
        (not (is_empty l.scene_uuid) && not (is_empty (trimmed l.scene_uuid)))
        (rw u (eq_refl l.scene_uuid)) (rw n (eq_refl l.scene_name))

  -- Where the current scene of OBS has the uuid `u`.
  abbrev pub at_scene : String → Env
  at_scene u = record env { current_obs_scene_uuid = u }

  -- For a scene whose uuid is known, a link is put over one that applies to that scene.
  own-is_current :
      (link l : SceneLayoutLink)
      → is_empty link.scene_uuid ≡ false
      → trimmed link.scene_name ≡ link.scene_name
      → is_current
          (at_scene link.scene_uuid)
          l.scene_name
          l.scene_uuid
          (trimmed link.scene_name)
          link.scene_uuid
        ≡ is_link_of env link.scene_name link.scene_uuid l
  unfolding is_current is_link_of
  own-is_current link l known n = rw n (ground (arith, known))

  -- A link that is put over, or put, does not apply to another scene.
  other-is_current :
      (link l : SceneLayoutLink) (name u : String)
      → is_empty link.scene_uuid ≡ false
      → (trimmed name == link.scene_name) ≡ false
      → (u == link.scene_uuid) ≡ false
      → is_link_of env link.scene_name link.scene_uuid l ≡ true
      → is_current (at_scene u) l.scene_name l.scene_uuid (trimmed name) u ≡ false
  unfolding is_current is_link_of
  other-is_current link l name u known names uuids h = ground (
    arith,
    known,
    names,
    uuids,
    h,
    eq_iff (trimmed l.scene_uuid) link.scene_uuid,
    eq_iff (trimmed l.scene_uuid) u,
    eq_iff (trimmed l.scene_name) link.scene_name,
    eq_iff (trimmed l.scene_name) (trimmed name),
    eq_iff (trimmed name) link.scene_name,
    eq_iff u link.scene_uuid,
  )

  -- A link for a scene that OBS knows, with its texts trimmed.
  record IsClean (link : SceneLayoutLink) : Type 0 where
    known : is_empty link.scene_uuid ≡ false
    name : trimmed link.scene_name ≡ link.scene_name
    uuid : trimmed link.scene_uuid ≡ link.scene_uuid

  current_link-put_link :
      (link : SceneLayoutLink) (ls : List SceneLayoutLink)
      → IsClean link
      → current_link (at_scene link.scene_uuid) link.scene_name (put_link env link ls) ≡ some link
  unfolding current_link put_link
  current_link-put_link link [] c =
      rw (own-is_current link link c.known c.name, is_link_of-own link c.name c.uuid) refl
  current_link-put_link link (l ∷ ls) c = ground (
    arith,
    own-is_current link link c.known c.name,
    own-is_current link l c.known c.name,
    is_link_of-own link c.name c.uuid,
    current_link-put_link link ls c,
  )

  -- The link that applies to another scene stays.
  other_link-put_link :
      (link : SceneLayoutLink) (ls : List SceneLayoutLink) (name u : String)
      → IsClean link
      → (trimmed name == link.scene_name) ≡ false
      → (u == link.scene_uuid) ≡ false
      → current_link (at_scene u) name (put_link env link ls) ≡ current_link (at_scene u) name ls
  unfolding current_link put_link
  other_link-put_link link [] name u c names uuids =
      rw (other-is_current link link name u c.known names uuids (is_link_of-own link c.name c.uuid))
        refl
  other_link-put_link link (l ∷ ls) name u c names uuids = ground (
    arith,
    other-is_current link link name u c.known names uuids (is_link_of-own link c.name c.uuid),
    other-is_current link l name u c.known names uuids,
    other_link-put_link link ls name u c names uuids,
  )

  clean_link-uuid :
      (link : SceneLayoutLink)
      → trimmed (obs_scene_uuid_for_name (trimmed link.scene_name))
        ≡ obs_scene_uuid_for_name (trimmed link.scene_name)
      → trimmed (clean_link env link).scene_uuid ≡ (clean_link env link).scene_uuid
  unfolding clean_link
  clean_link-uuid link h =
      if_cases (λ u. trimmed u ≡ u) (is_empty (obs_scene_uuid_for_name (trimmed link.scene_name)))
        (trimmed_idem link.scene_uuid) h

  clean_link-name :
      (link : SceneLayoutLink)
      → trimmed (clean_link env link).scene_name ≡ (clean_link env link).scene_name
  unfolding clean_link
  clean_link-name link = trimmed_idem link.scene_name

  save_links-taken :
      (error : String) (links : List SceneLayoutLink) (m : Manager)
      → env.profile_changed ≡ false
      → ((s : PluginSettings) → env.store_save s ≡ none)
      → (save_links env error links m).scene_links ≡ links
  unfolding save_links
  save_links-taken error links m same takes = ground (
    arith,
    save-taken env (record m { scene_links = links }) same takes,
    save-scenes env (record m { scene_links = links }),
  )

  -- After a link with a scene's name and something to link to was put and could be saved, where the
  -- scene's uuid is known and OBS's uuids have no spaces around them: when the scene is the current
  -- one, the link that `applyLinkedScene` finds is the new one, and when another scene is, with
  -- another name and another uuid, it finds the same link as before or none as before.
  pub current_link-upsert_scene_link :
      (link : SceneLayoutLink) (m : Manager) (name u : String)
      → trimmed (obs_scene_uuid_for_name (trimmed link.scene_name))
        ≡ obs_scene_uuid_for_name (trimmed link.scene_name)
      → env.profile_changed ≡ false
      → ((s : PluginSettings) → env.store_save s ≡ none)
      → is_empty (trimmed link.scene_name) ≡ false
      → is_empty (clean_link env link).scene_uuid ≡ false
      → (is_empty link.vertical_scene_id && is_empty link.legacy_template_id) ≡ false
      → (trimmed name == trimmed link.scene_name) ≡ false
      → (u == (clean_link env link).scene_uuid) ≡ false
      → (current_link
            (at_scene (clean_link env link).scene_uuid)
            (trimmed link.scene_name)
            (upsert_scene_link env link m).scene_links
          ≡ some (clean_link env link))
        × (current_link (at_scene u) name (upsert_scene_link env link m).scene_links
            ≡ current_link (at_scene u) name m.scene_links)
  unfolding upsert_scene_link clean_link
  current_link-upsert_scene_link link m name u h same takes named known target names uuids =
      let clean : SceneLayoutLink = clean_link env link in
      let c : IsClean clean = record {
        known = known;
        name = clean_link-name link;
        uuid = clean_link-uuid link h;
      } in
      rw
        (
          named,
          target,
          save_links-taken "Failed to save vertical scene link." (put_link env clean m.scene_links)
              m same takes,
        )
        (
          current_link-put_link clean m.scene_links c,
          other_link-put_link clean m.scene_links name u c names uuids,
        )
