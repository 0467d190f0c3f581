-- ===== src/Manager.antt =====
-- core/output-manager.hpp and the top of core/output-manager.cpp: the state of the output manager.
-- OBS, the clock, the settings file and the credential store answer through `Env`; what the
-- manager asks of them, and the Qt signals that it emits, are the entries of its `log`, newest
-- first. Logging is left out.
pub mod State
pub mod Encoders
pub mod Save
pub mod Removal
pub mod Sessions
pub mod Secrets
pub mod Start
pub mod Frame
pub mod Stop
pub mod Targets
pub mod Operation
pub mod Requests
pub mod Broadcast
pub mod Answers
pub mod Signals
pub mod Adding
pub mod Layouts
pub mod Links
pub mod Routes
pub mod Unload
pub mod Collection
pub mod Machine
