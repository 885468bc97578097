-- ===== src/Protocol.antt =====
-- scripts/host-helper-protocol.mjs: the frames between the kit and the privileged host helper.
-- Grammar: the regular expressions and typed tests; Shape: closed objects; Registry: the tables of
-- operations; ControlPlan and Payload: the validation of payloads; Receipts, Capability, Results and
-- Responses: the validation of results and responses; Canonical: canonical JSON;
-- Requests: authentication. The children of these hold the proofs.
pub mod Grammar
pub mod Shape
pub mod Registry
pub mod ResultRegistry
pub mod ControlPlan
pub mod Payload
pub mod Receipts
pub mod Capability
pub mod Results
pub mod Responses
pub mod Reader
pub mod Strings
pub mod Scalars
pub mod Strict
pub mod Frames
pub mod Canonical
pub mod Requests
pub mod Tests
