-- ===== src/Examples.antt =====
-- Concrete inputs: a database in memory, tests of the model and uses of its theorems.
mod Memory
mod Elements
mod Users
mod Boards
mod Drawing
mod Hashing
mod Pool
mod Wire
mod Clients
mod Draw
mod Serving
mod Many
mod Sockets
