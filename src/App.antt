-- ===== src/App.antt =====
-- app/main.py: the routes in their order, and the middleware around them.
pub mod Routing
pub mod Startup
pub mod Middleware
pub mod Metering
