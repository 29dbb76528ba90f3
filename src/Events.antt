-- ===== src/Events.antt =====
-- `RabbitMQClient` of infra/docker/RabbitMQ/rabbitMQ.py: how a consumer settles a message, and the
-- queues between its deliveries.
pub mod Consumer
pub mod Settled
pub mod SettledLaws
pub mod Network
pub mod NetworkLaws
pub mod Retries
mod Tests
