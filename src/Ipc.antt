-- ===== src/Ipc.antt =====
-- libHH/ipc: messages over a byte stream.
pub mod Message
pub mod ChannelReader
pub mod FilterRouter
pub mod ParamTraits
