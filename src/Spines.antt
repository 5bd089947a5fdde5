-- ===== src/Spines.antt =====
-- p4/spines-src-5.5/daemon: the counters that wrap around, the sizes of headers, and the cost of a leg.
pub mod Sequence
pub mod Stamp
pub mod Sizes
pub mod Leg
mod Tests
