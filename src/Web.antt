-- ===== src/Web.antt =====
-- internal/web: the parts of the HTTP interface that do not call the framework.
pub mod Pagination
pub mod RequestId
pub mod Component
