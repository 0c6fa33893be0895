-- ===== src/Tests.antt =====
-- Runs on concrete inputs, and each theorem that has hypotheses at an input that meets them.
mod Floats
mod Sorting
mod Lexical
mod Negotiation
mod Serving
mod Responses
mod Retrying
mod Keeping
mod Limits
mod Proxying
mod Upgrades
mod Addresses
mod Proxied
mod Accepting
mod Passing
mod Tunneling
mod Echoing
mod Forwarding
mod Encoding
mod Listening
