-- ===== src/Tests.antt =====
-- Concrete runs of the packages, on a small service and a small platform.
mod Service
mod Configuration
mod Running
mod Serving
mod Stacked
mod Settings
mod Measuring
mod Budgeted
