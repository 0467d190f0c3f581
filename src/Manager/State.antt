-- ===== src/Manager/State.antt =====
-- core/output-manager.hpp, core/output-manager.cpp: the manager's record, its look-ups, and the
-- bookkeeping of runtime statuses and warnings.
mod Data
mod Lookups
mod Status
unfoldable pub use Data.*
unfoldable pub use Lookups.*
unfoldable pub use Status.*
