-- ===== src/App.antt =====
-- main.py: what is started with the server and stopped with it, the health endpoint, and the wiring
-- of the components.
pub mod Lifespan
pub mod Health
pub mod Catalogue
pub mod Wiring
pub mod Switches
pub mod Turns
mod Tests
