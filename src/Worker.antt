-- ===== src/Worker.antt =====
-- app/workers: the commands, the handlers that run them and the consumer that delivers them.
pub mod Messages
pub mod Handlers
pub mod Consumer
pub mod Redelivery
pub mod Resumption
pub mod RoundTrip
