-- ===== src/Controller.antt =====
-- Managers of the browser controller under src/controller that keep state of their own.
pub mod Policy
pub mod Risk
mod Examples
