-- ===== src/Tests.antt =====
-- Runs of the definitions on small inputs, and the theorems at concrete inputs.
mod Server
mod Login
mod Client
mod Control
mod Peer
mod Reports
mod View
mod Dialog
mod Receiving
mod Presence
mod Media
