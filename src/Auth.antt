-- ===== src/Auth.antt =====
-- Who may do what: internal/auth.
pub mod Principal
pub mod Policy
