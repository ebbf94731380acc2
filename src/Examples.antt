-- ===== src/Examples.antt =====
-- Concrete resources and surroundings, and the theorems applied to them.
mod Data
mod Config
mod Control
mod Tools
mod Debug
mod Pods
mod Panics
mod Access
mod Secrets
