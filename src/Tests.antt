-- ===== src/Tests.antt =====
-- Runs of the model on concrete inputs, and the theorems at concrete inputs.
mod Serves
mod Accepts
mod Sessions
mod Encrypted
mod Handshakes
mod Inits
mod Carried
mod Transfers
mod Streams
mod Flows
mod Dials
mod Uints
mod Pools
mod Writes
mod Averages
mod Idles
mod Loops
mod Nonces
mod Reports
