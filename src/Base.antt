-- ===== src/Base.antt =====
-- libHH/base: the parts of Chromium's base library that libHH keeps.
pub mod Bits
pub mod Pickle
pub mod PickleIterator
pub mod PickleItems
pub mod TaskQueue
pub mod AtExit
pub mod Numbers
pub mod Split
pub mod SafeMath
pub mod CommandLine
pub mod Pattern
pub mod MessageLoop
