-- ===== src/Mr1.antt =====
-- The MR-1 protocol of mrcore/mr1.go: enrolment, the challenge, and the two ways to finish a
-- recovery, over the `Group` interface. The standard library's cryptography is a parameter.
pub mod Crypto
pub mod Finish
pub mod Start
pub mod Facts
pub mod Recovery
pub mod Guards
pub mod Toy
pub mod Tests
