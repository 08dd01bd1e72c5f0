-- ===== src/Tests.antt =====
-- Concrete runs: the theorems at inputs where their hypotheses hold.
mod World
mod Reinit
mod Linecards
mod Soft
mod Ids
mod Maps
mod Checks
mod Requests
mod Events
mod RoundTrips
mod Counters
mod Gauges
mod Attrs
mod FlexCounters
