-- ===== src/Tests.antt =====
-- Runs of the definitions on concrete inputs, and the theorems applied to them.
mod Log
mod Mail
mod Intake
mod Removal
mod Smtp
mod Store
mod Retry
mod Web
mod Pipeline
mod Push
