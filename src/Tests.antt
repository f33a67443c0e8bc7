-- ===== src/Tests.antt =====
-- Runs of the code at concrete inputs.
mod HashTools
mod Connections
mod Pool
mod Events
mod Serving
mod Sockets
mod Boot
mod Config
mod Strings
mod Http
mod Receive
mod Router
