-- ===== src/Provider.antt =====
-- internal/provider: the model bindings of the profiles and the boundary of a model call.
pub mod Registry
pub mod Service
pub mod Stream
pub mod Eino
