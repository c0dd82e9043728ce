-- ===== src/Masp/Runs.antt =====
-- What a successful run of a handler has passed: one record for each handler.
pub mod Checks
pub mod Transfer
pub mod Unshield
pub mod Shield
