-- ===== src/Tests.antt =====
-- Tests on concrete inputs, and the theorems applied to such.
mod Names
mod Lists
mod Archives
mod Manifests
mod Destinations
mod Versions
mod Sources
mod Workers
mod Loaders
mod Charts
mod Kdm
mod Systems
mod Runs
mod Pools
mod Mirrors
mod Validations
