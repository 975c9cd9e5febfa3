-- ===== src/Gateway.antt =====
-- Admission control of the gateway: internal/gateway.
pub mod DataBudget
pub mod RequestLimiter
