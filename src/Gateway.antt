-- ===== src/Gateway.antt =====
-- The gateway in front of the services (apps/api-gateway and shared/api): its rate limit and its
-- checks of roles.
pub mod RateLimit
pub mod RateLimitLaws
pub mod Agents
pub mod AgentsLaws
pub mod Rbac
pub mod RbacLaws
pub mod Login
pub mod LoginLaws
pub mod Market
pub mod MarketLaws
mod MarketTests
mod Tests
