-- ===== src/Tests.antt =====
-- The theorems at concrete inputs.
mod Samples
mod Semver
mod Choices
mod Deletions
mod Deployers
mod Replications
mod Rollouts
mod Reconciliations
mod Hashes
mod Watches
mod Workers
mod Objects
mod Contexts
mod Encodings
mod References
mod Configurations
