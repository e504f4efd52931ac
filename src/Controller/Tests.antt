-- ===== src/Controller/Tests.antt =====
-- The laws of the controller's parts at concrete inputs.
mod Fit
mod Machine
