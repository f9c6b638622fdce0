-- ===== src/Tests.antt =====
-- The kernels that the components are tried on, and the tests: of the allocator, of the scheduler, and of
-- the system calls on queues.
pub mod Sample
pub mod Allocator
pub mod Send
pub mod Receive
pub mod Create
pub mod Opened
pub mod System
pub mod Ticks
pub mod Process
pub mod Links
pub mod Exit
pub mod Printed
