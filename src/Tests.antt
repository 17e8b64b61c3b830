-- ===== src/Tests.antt =====
-- Concrete inputs on which the theorems apply.
mod Base
mod Http
mod EndPoint
mod Plugins
mod System
mod Server
mod Faults
mod Exchange
mod Host
mod Logger
mod Folder
