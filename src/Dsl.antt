-- ===== src/Dsl.antt =====
pub mod Arguments
pub mod Calls
pub mod Fusion
pub mod Emit
pub mod Delivery
pub mod Watchdog
pub mod Last
pub mod Always
mod Tests
