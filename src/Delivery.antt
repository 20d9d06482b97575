-- ===== src/Delivery.antt =====
-- services/event-publisher/src/trax_io_event_publisher: publisher.py (the producer that retries),
-- endpoint.py (the reference endpoint) and the transport between them (transport.py).
pub mod Publisher
pub mod Endpoint
pub mod Network
pub mod Once
