-- ===== src/Redis.antt =====
-- The Redis database and syncd/RedisClient.cpp.
pub mod Database
pub mod VidMap
pub mod AsicTable
pub mod Client
