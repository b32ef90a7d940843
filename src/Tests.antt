-- ===== src/Tests.antt =====
-- Concrete runs of the model, and the theorems at concrete inputs.
mod Wire
mod Queues
mod Ids
mod Echo
mod Dispatch
mod Upgrade
mod Connection
mod Streams
mod Websocket
mod Ends
mod Packets
