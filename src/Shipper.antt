-- ===== src/Shipper.antt =====
-- internal/topsrv/shipper/pusher.go: batches of events, delivery, and the spool.
-- `State` holds the fields of the Pusher and the outside world, `Send` the requests, `Spool` the
-- files, and `Run` the loop and the shutdown.
pub mod State
pub mod Event
pub mod Send
pub mod Spool
pub mod Run
mod Frame
mod Tests
