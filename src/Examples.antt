-- ===== src/Examples.antt =====
-- The theorems at concrete inputs.
mod Wire
mod Serving
mod Visiting
mod Tunnelling
mod Metering
