-- ===== src/Tests.antt =====
-- Small units, graphs and runs, and the theorems at them.
mod Samples
mod Units
mod Lifecycles
mod Plans
mod Executions
mod Storage
mod Formats
mod Directives
mod Clients
