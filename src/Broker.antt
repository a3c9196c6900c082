-- ===== src/Broker.antt =====
-- app/broker.py: the messages, the in-process queue, and the publishing side of the RabbitMQ queue.
pub mod Message
pub mod Codec
pub mod Pool
pub mod Memory
pub mod Rabbit
