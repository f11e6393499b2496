-- ===== src/Tests.antt =====
-- Runs of the code on concrete inputs.
mod Documents
mod Lookups
mod Rings
mod HashMaps
mod BitSets
mod Slices
mod ArrayLists
mod Vectors
mod Allocators
mod StringBuilders
mod StringUtilities
