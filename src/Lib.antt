-- ===== src/Lib.antt =====
-- Verification library for DSK Multistream (src/), a plugin of OBS that streams to several
-- platforms at once. The heart of the program is the output manager: it keeps a list of targets
-- (streaming destinations) and a list of sessions (running outputs), shares encoders between
-- sessions by reference counting, follows the signals of OBS's outputs, and asks YouTube to put a
-- broadcast on air. The user interface and OBS's own events call it.
--
-- Which file models which part:
--   Base            names and lemmas that all parts share; `Qt` is the record of Qt's text functions
--   Target          src/core/output-target.hpp and .cpp: the data of a target; Target/Names its texts,
--                   Target/Validation the check before a start
--   Runtime         src/core/output-runtime-status.hpp: the state of an output and what is shown of it
--   YouTube         src/core/youtube-api-warning.hpp (Warning), and the reading of YouTube's answers in
--                   src/core/output-manager.cpp (Response), the choice of a broadcast in
--                   src/core/youtube-broadcast-selector.cpp (Selection), and the requests as their
--                   completions capture them (Request)
--   Order           src/core/stable-id-order.hpp: the reordering of values by their ids
--   Layout          src/core/layout-manager.hpp and .cpp: the vertical scenes and the active one
--                   (Sync: its layout and the visible one);
--                   Layout/Geometry src/core/vertical-layout-geometry.hpp: the bounds of a layout
--   Settings        src/core/settings-codec.cpp and src/core/settings-store.cpp: the settings as a JSON
--                   document (Json, Codec, Saved, Check), the files (Disk, Store, Store/Saving), and the
--                   secrets in the credential store of src/core/secret-store.cpp (Secrets)
--   Dock            src/ui/visible-refresh-gate.hpp and the refreshes of
--                   src/ui/stream-controls-dock.cpp
--   Viewer          src/integration/comment-viewer-integration.cpp and its policy: the search for the
--                   DSK Comment Viewer (Events the order of its callbacks), and in Contract
--                   src/core/comment-viewer-contract.hpp
--   Manager         src/core/output-manager.hpp and .cpp, the class OutputManager, by parts:
--     State         its record `Manager`, the record `Session`, findTarget, sessionForTarget,
--                   setRuntimeTransport, setRuntimePlatform, setTargetError, setTargetApiWarning
--     Encoders      effectiveProfileForTarget, sharedEncoderKey, acquireSharedEncoders,
--                   releaseSharedEncoders
--     Save          save, ensureCredentialRefs, deleteUnreferencedTargetSecrets, and the names of
--                   references in src/core/secret-store.cpp
--     Removal       finalizeTargetRemoval, finalizePendingRemoval
--     Secrets       hydrateTargetSecrets, validateTarget
--     Sessions      releaseSession, releaseAllSessionsNow
--     Start, Stop   startTarget, startIndependentTarget, startAll, stopTarget, stopAll,
--                   handleObsStreamingStarted and Stopped, and their suppression
--     Adding        addTarget, addRuntimeTarget
--     Layouts       the saved operations on vertical scenes
--     Links         upsertSceneLink, removeSceneLink, setFollowObsScene, handleObsSceneChanged,
--                   applyLinkedScene, effectiveOutputSceneName
--     Routes        setTargetSceneMode, upsertTargetSceneRoute, refreshSceneIdentities
--     Targets       removeTarget, removeRuntimeTarget, setTargetEnabled, mutateTargetForUi
--     Operation     youtubeOperationMatches, completeYouTubeOperation, scheduleYouTubePoll,
--                   stopYouTubeAutoStartIfTimedOut, and the credentials of src/core/oauth-provider.cpp
--     Requests      refreshYouTubeAccessToken, listYouTubeBroadcasts and listYouTubeBroadcastPage up to
--                   the request
--     Broadcast     maybeStartYouTubeBroadcast, the polls and the retries of a YouTube operation
--     Answers       the completions of YouTube's requests, listYouTubeStreams and
--                   listYouTubeStreamBatch; Answers/Selected processYouTubeBroadcastSelection and
--                   transitionYouTubeBroadcast
--     Signals       handleOutputSignal, handleOutputStopped
--     Unload        prepareForUnload
--     Collection    prepareForSceneCollectionChange
--     Machine       all of these as the steps of one machine
--   Samples         sample values
--   Examples        the theorems at sample values
--
-- State and effects. An operation is a function of the manager's record. What it asks of OBS, of
-- timers and of the credential store it adds to the record's log; what it learns from them is the
-- record `Env`, one for each call: the clock, whether an output is active, whether an encoder could
-- be created, whether the settings could be saved. A handle of an OBS object is a number, a null
-- pointer is `none`. A pointer to a session is its position in the list, a pointer to a target its
-- id. The hash of runtime statuses and the sets of ids are functions. The program is single
-- threaded: callbacks and timers are steps of the machine.
--
-- Numbers. Serials and generations are quint64 and wrap (`u64`); times are natural numbers of
-- milliseconds, and a difference that would be negative is 0, which the code's tests with `>` treat
-- alike. The `int` settings of a target are signed. Doubles are bit patterns with the operations and
-- laws of the record `Doubles`. Loops are recursion on lists or on a position, so no fuel is needed,
-- but for the search of a name for an invalid settings file, which is bounded by one turn more than
-- there are files, and the search of a new target's id, bounded by one turn more than there are
-- targets.
--
-- Not modelled: what the widgets show (src/ui), the login flow (src/core/oauth-connector.cpp), scene
-- canvases, the rectangles that the layout editor draws, the loading of the settings into the manager
-- and its reload for another profile (loadSettingsFromCurrentProfile, reloadForCurrentProfile),
-- logging, and the C callbacks. Calls of the OBS library, of Qt and of the Windows credential store
-- are answers of `Env` (for the Comment Viewer, of `World`); the settings have their own records of
-- answers, `FileCalls`, `JsonText` and `CredentialStore`, whose errors are the same throughout a call.
-- Texts that QString::arg fills are joined, so a path or a name that itself holds a place marker such
-- as `%1` is not followed. A refresh of a dock that is under way or has no buttons yet returns early in
-- the source; here it always fills the rows. The offset of a moved scene does not overflow.
pub mod Base
pub mod Target
pub mod Runtime
pub mod YouTube
pub mod Manager
pub mod Order
pub mod Layout
pub mod Settings
pub mod Viewer
pub mod Dock
pub mod Samples
pub mod Examples
