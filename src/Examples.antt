-- ===== src/Examples.antt =====
-- Each theorem of the results at one concrete input.
mod Server
mod Requests
mod Codes
mod Frames
mod Sessions
mod Transfers
mod Sends
mod Settings
mod Exchange
mod Flows
mod Declines
mod Client
mod Terminal
mod App
