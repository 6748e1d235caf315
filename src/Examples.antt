-- ===== src/Examples.antt =====
-- Concrete inputs of the theorems of the development.
mod Loop
mod Tools
mod Documents
mod Sessions
mod Registries
mod Prompts
mod Travel
