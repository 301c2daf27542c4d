-- ===== src/Tests.antt =====
-- Runs of the code on concrete data, and the properties at concrete inputs.
mod World
mod Genesis
mod FirstClaim
mod Ai
mod Faucet
mod Kilt
mod Runtime
mod Clock
mod Extrinsics
mod Node
