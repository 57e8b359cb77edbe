-- ===== src/FigmentChain.antt =====
-- contenders/rust/figment-engine-chain/src: the copy-only chain.
pub mod Assemble
pub mod PlanChain
pub mod RateLimit
mod Tests
