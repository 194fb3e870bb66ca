-- ===== src/Tests.antt =====
-- Runs of the code at concrete inputs.
mod Connector
mod Service
mod Setup
mod Administration
mod Deployment
mod TempFiles
