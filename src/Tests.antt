-- ===== src/Tests.antt =====
-- Concrete instances of the theorems, and of the two interfaces to code outside the repository.
mod Hash
mod Scanner
mod Packet
mod Pipeline
mod Buckets
mod Flow
mod Flows
mod Lifetime
mod Stream
mod Delivered
mod Doubles
mod Startup
mod Stats
mod Http
mod Tls
mod Rules
mod Table
mod Engine
mod Worker
mod Rx
