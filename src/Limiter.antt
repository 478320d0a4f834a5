-- ===== src/Limiter.antt =====
-- internal/gateway/limiter.go: concurrency counters, the gate and the byte budget.
pub mod Counter
pub mod Gate
pub mod Budget
mod Tests
