-- ===== src/Tests.antt =====
-- Tests, and the theorems of the library at concrete inputs.
mod Tiny
mod Field
mod Fixture
mod Ecdsa
mod Curve
mod Identity
mod Signer
mod Key
mod Trade
mod Flow
mod Honest
mod Package
mod Cli
mod Piped
mod Recorded
mod Audit
mod Timestamp
