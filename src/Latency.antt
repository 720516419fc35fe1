-- ===== src/Latency.antt =====
-- network_latency.py: delays between the nodes by `tc` and `netem`.
pub mod Bands
pub mod Parse
pub mod Freeze
pub mod Delays
pub mod Manager
