-- ===== src/Tool.antt =====
-- tools/ttwind-info/ttwind-info.c: the command-line tool, a client of the driver.
pub mod Calls
pub mod Args
pub mod Device
pub mod Windows
pub mod Messages
pub mod Sysmem
pub mod Main
pub mod Balance
pub mod Released
pub mod Polls
pub mod Accepted
pub mod Listing
pub mod Pairs
