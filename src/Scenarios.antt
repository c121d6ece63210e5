-- ===== src/Scenarios.antt =====
-- Concrete runs: a small world in which the theorems are applied.
mod Toy
mod Data
mod Uploads
mod Deletions
mod Bindings
mod Texts
mod Bundles
mod Rounds
mod Targets
mod Fakes
mod Fc3Rounds
mod Unbinding
mod Clouds
mod OssRounds
mod Accounts
mod Decisions
