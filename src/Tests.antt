-- ===== src/Tests.antt =====
-- Runs on concrete inputs, and applications of the theorems at concrete inputs.
mod Parse
mod Witnesses
mod Components
mod Sound
mod Resolve
mod Traits
mod Normal
mod Dots
mod Coding
