-- ===== src/Git.antt =====
-- services/git and common: the repository behind libgit2, the manager that owns it, and the request
-- handlers of the gRPC service.
pub mod Library
pub mod Repo
pub mod Manager
pub mod Proxy
pub mod Requests
pub mod Service
pub mod Samples
mod Tests
