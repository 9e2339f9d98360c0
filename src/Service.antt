-- ===== src/Service.antt =====
-- src/env/mock_service/state.py: one mock service. `State` has what it is and reports, `Ops` the methods
-- that change it.
mod State
mod Ops
unfoldable pub use State.*
unfoldable pub use Ops.*
