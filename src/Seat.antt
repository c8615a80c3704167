-- ===== src/Seat.antt =====
-- apps/seat-reservation/src: the seat service.
mod Tests
pub mod Db
pub mod Consistent
pub mod Holds
pub mod Bus
pub mod Stream
pub mod Sweeper
pub mod Consumer
pub mod Controller
pub mod Listing
pub mod Booking
pub mod Traces
pub mod Typed
pub mod Wire
