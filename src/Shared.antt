-- ===== src/Shared.antt =====
-- internal/shared: the errors of the API, the query parameters, pagination and validation.
pub mod Numbers
pub mod Errors
pub mod Query
pub mod Pagination
pub mod Validation
pub mod Responses
pub mod Cursor
mod Witnesses
