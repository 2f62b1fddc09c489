-- ===== src/Examples.antt =====
-- Test data, tests of the definitions, and every theorem at a concrete input.
mod Data
mod Wire
mod Keys
mod Events
mod Dialogs
mod Sessions
mod Files
mod Peers
mod Sockets
mod Programs
mod Views
mod Orders
