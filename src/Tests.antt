-- ===== src/Tests.antt =====
-- Runs of the definitions, and the theorems at concrete data.
mod Sim
mod Bpf
mod Scrape
mod Shields
mod Calm
mod Brain
mod Allow
mod Total
mod Api
mod Ring
mod Live
mod Config
mod Server
mod Listing
mod Blocks
mod Main
mod Published
mod OneEntry
mod Freed
mod Restored
mod Turns
mod Looped
mod Filter
mod Dump
