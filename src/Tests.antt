-- ===== src/Tests.antt =====
-- Runs of the models on concrete inputs.
mod Data
mod Media
mod Worker
mod Files
mod Store
mod Pages
mod Driver
mod Config
mod Admin
mod Api
mod Legacy
mod Probe
mod Device
mod Protocol
mod Transport
mod Auth
