-- ===== src/YouTube/Selection.antt =====
-- core/youtube-broadcast-selector.cpp: the choice of the broadcast that a target's signal belongs
-- to. Qt parses the JSON; a broadcast and a stream carry the texts that the code reads of them, ""
-- where a field is missing.
pub mod Laws
use obs_dsk_multistream.Base.{
  ℕ, String, Bool, true, false, not, ◌==◌, ◌&&◌, ◌||◌, Option, none, some, List, [], ◌∷◌,
  if◌then◌else◌, is_empty, Qt,
}

-- `id`, `status.lifeCycleStatus`, and of `contentDetails` `boundStreamId`, `enableAutoStart` and
-- `monitorStream.enableMonitorStream`, `none` where that is missing.
pub record Broadcast : Type 0 where
  pub id : String
  pub life_cycle_status : String
  pub bound_stream_id : String
  pub enable_auto_start : Bool
  pub enable_monitor_stream : Option Bool

-- `status.streamStatus` and `cdn.ingestionInfo.streamName`.
pub record Stream : Type 0 where
  pub stream_status : String
  pub stream_name : String

pub data YoutubeBroadcastSelectionState : Type 0 where
  no_active_broadcast selected multiple_active_broadcasts : YoutubeBroadcastSelectionState
  no_stream_key_match multiple_stream_key_matches : YoutubeBroadcastSelectionState
  preferred_broadcast_unavailable : YoutubeBroadcastSelectionState

pub record YoutubeBroadcastSelection : Type 0 where
  pub state : YoutubeBroadcastSelectionState
  pub broadcast : Option Broadcast
  pub candidates : List Broadcast

abbrev outcome : YoutubeBroadcastSelectionState → List Broadcast → YoutubeBroadcastSelection
outcome state candidates = record { state = state; broadcast = none; candidates = candidates }

abbrev chosen : Broadcast → List Broadcast → YoutubeBroadcastSelection
chosen b candidates = record { state = selected; broadcast = some b; candidates = candidates }

unfoldable pub is_transitionable_lifecycle : String → Bool
is_transitionable_lifecycle lifecycle =
    lifecycle == "ready"
    || lifecycle == "testing"
    || lifecycle == "testStarting"
    || lifecycle == "liveStarting"
    || lifecycle == "live"

-- `streamsById.value(id)`: an empty object for an unknown id.
abbrev pub stream_of : (String → Option Stream) → Broadcast → Stream
stream_of streams b = elim (streams b.bound_stream_id) [
  | none ↦ record { stream_status = ""; stream_name = "" }
  | some s ↦ s
]

abbrev pub is_active : (String → Option Stream) → Broadcast → Bool
is_active streams b =
    is_transitionable_lifecycle b.life_cycle_status
    && (stream_of streams b).stream_status == "active"

-- The loop: the active broadcasts, and those of them on the stream with the key.
collect : (String → Option Stream) → String → List Broadcast → List Broadcast × List Broadcast
collect streams clean_key [] = ([], [])
collect streams clean_key (b ∷ bs) =
    let (active, matching) = collect streams clean_key bs in
    if is_active streams b
    then (
      b ∷ active,
      if not (is_empty clean_key) && (stream_of streams b).stream_name == clean_key
          then b ∷ matching
          else matching,
    )
    else (active, matching)

find_by_id : String → List Broadcast → Option Broadcast
find_by_id id [] = none
find_by_id id (b ∷ bs) = if b.id == id then some b else find_by_id id bs

select_preferred : String → List Broadcast → YoutubeBroadcastSelection
select_preferred id eligible = elim (find_by_id id eligible) [
  | none ↦ outcome preferred_broadcast_unavailable eligible
  | some b ↦ chosen b eligible
]

select_active : List Broadcast → YoutubeBroadcastSelection
select_active [] = outcome no_active_broadcast []
select_active (b ∷ []) = chosen b (b ∷ [])
select_active (b ∷ c ∷ bs) = outcome multiple_active_broadcasts (b ∷ c ∷ bs)

select_matching : List Broadcast → List Broadcast → YoutubeBroadcastSelection
select_matching [] [] = outcome no_active_broadcast []
select_matching (a ∷ active) [] = outcome no_stream_key_match (a ∷ active)
select_matching active (b ∷ []) = chosen b (b ∷ [])
select_matching active (b ∷ c ∷ bs) = outcome multiple_stream_key_matches (b ∷ c ∷ bs)

module _ (qt : Qt) where
  open qt use {trimmed}

  unfoldable pub select_youtube_broadcast :
      List Broadcast → (String → Option Stream) → String → String → YoutubeBroadcastSelection
  unfolding collect find_by_id select_preferred select_active select_matching
  select_youtube_broadcast broadcasts streams target_stream_key preferred_broadcast_id =
      let clean_key = trimmed target_stream_key in
      let (active, matching) = collect streams clean_key broadcasts in
      let eligible = if is_empty clean_key then active else matching in
      if not (is_empty (trimmed preferred_broadcast_id))
      then select_preferred (trimmed preferred_broadcast_id) eligible
      else if is_empty clean_key
      then select_active active
      else select_matching active matching
