-- ===== src/FileCopy.antt =====
-- p1/source: the file copy over UDP (ncp, rcv) and over TCP (t_ncp, t_rcv).
pub mod Buffer
pub mod Usage
pub mod Hosts
pub mod Loss
pub mod Message
pub mod Receiver
pub mod Sender
pub mod Tcp
pub mod Transfer
mod Tests
