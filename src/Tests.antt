-- ===== src/Tests.antt =====
-- Runs of the models at concrete inputs, and the theorems at inputs where their premises hold.
mod Forwarding
mod Delivering
mod Promotion
mod Working
mod Groups
mod Exclusion
mod Missed
mod Asking
mod Quieting
mod Albums
mod Calling
