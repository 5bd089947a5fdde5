-- ===== src/RealTime.antt =====
-- p2/source: the real-time transport between a sending application and a receiving one. (p2/source/bonus
-- differs from it only in what the application's datagrams hold: RealTime/Bonus.)
pub mod Packet
pub mod Delay
pub mod Estimator
pub mod Receiver
pub mod Server
pub mod Stream
pub mod Transfer
pub mod Bonus
pub mod Usage
pub mod Hosts
mod Tests
