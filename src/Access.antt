-- ===== src/Access.antt =====
-- app/security.py and the services that keep credentials: app/services/worker_access.py and
-- app/services/access.py.
pub mod Tokens
pub mod WorkerAccess
pub mod Lifecycle
pub mod Advancing
pub mod Calls
pub mod Admission
pub mod Commits
pub mod RoundTrips
pub mod Clients
pub mod Creating
pub mod Scopes
pub mod Sessions
pub mod Administrators
