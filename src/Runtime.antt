-- ===== src/Runtime.antt =====
-- The Python runtime as the clients use it: values, exceptions, and actions over the trace of
-- effects. Everything outside the repository answers through the record `Env`.
pub mod Json
pub mod Exec
pub mod Env
pub mod Returns
pub mod Quiet
pub mod Text
pub mod Sort
pub mod Fallible
