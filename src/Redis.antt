-- ===== src/Redis.antt =====
-- `RedisClient` of infra/docker/redis/redis_client.py, the wrapper of Redis that counts requests and
-- spending, keeps sessions and takes locks.
pub mod Client
pub mod Limits
mod Tests
