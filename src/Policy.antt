-- ===== src/Policy.antt =====
-- packages/runtime/src/policy.ts: whether the runtime that an assessed project asks for may be started.
-- Text and Dockerfile: the tests on texts; Tables: the fields allowed and forbidden; Parts, Resources and
-- Candidate: the validation. The other children hold the proofs.
pub mod Text
pub mod Dockerfile
pub mod Tables
pub mod Resources
pub mod Parts
pub mod Candidate
pub mod Codes
pub mod Rejected
pub mod Contained
pub mod Accepted
pub mod Variables
pub mod Interpolated
pub mod Credentials
pub mod Isolated
pub mod Memory
pub mod Tests
