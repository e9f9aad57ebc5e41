-- ===== src/Tests.antt =====
-- Concrete runs of the modelled operations, and the witnesses of the properties.
mod Data
mod Chain
mod Merging
mod Money
mod Bridge
mod Pool
mod Gas
mod Graph
mod Pow
mod Runtime
mod State
mod Reorg
mod Sealed
mod Mining
mod Headers
