-- ===== src/Infra.antt =====
-- What the program runs on: the Redis server, the database, and the surroundings of a request.
pub mod Lua
pub mod Redis
pub mod World
pub mod Sql
pub mod Database
pub mod Ddl
