-- ===== src/Lib.antt =====
-- libHH is a C++ library for Windows after Chromium: `libHH/base` holds containers, strings,
-- threads and message loops, and `libHH/ipc` sends messages between processes over named pipes.
-- This library models how a message is built, what its bytes are, and how the other side cuts the
-- bytes of a pipe into messages and routes them, the loops that run tasks, and the text, numbers
-- and command line that a program takes in. The build is 32-bit: `size_t` has 32 bits, `int` is in
-- two's complement, and words lie in memory with the low byte first.
--
-- How the parts interact: `Pickle` serialises values into one block of memory, and `PickleIterator`
-- reads them back. A `Message` is a pickle with a longer header, and `ParamTraits` say how its
-- parameters are written to it and read. `ChannelReader` takes what a pipe
-- delivers, finds whole messages in it with `Message::FindNext`, keeps the unfinished one in its
-- overflow buffer, and hands copies of the others to a listener, in front of which a
-- `MessageFilterRouter` may stand. Work moves between threads as tasks: an `IncomingTaskQueue` takes
-- them under a lock, and the message loop reloads its work queue from it. An `AtExitManager` runs
-- callbacks when it goes away. A `CommandLine` is read from the strings that a process is started
-- with, or is built switch by switch and turned into the string that starts another process.
--
-- Which file models what:
--   Common          helpers: lists over the native numbers, slices of memory, little-endian words,
--                   32-bit integers
--   Base.Bits       libHH/base/bits.h: Align, Log2Floor, Log2Ceiling
--   Base.Pickle     libHH/base/pickle.h and pickle.cpp, class Pickle: one function per member
--                   function, in the source's words (ClaimUninitializedBytesInternal is
--                   claim_uninitialized_bytes_internal)
--   Base.PickleIterator
--                   the same files, class PickleIterator: every read is a function from an iterator
--                   to the value, or none for false, and the iterator that it leaves
--   Base.PickleItems
--                   values of all the types at once, written and read in sequences
--   Base.TaskQueue  libHH/base/message_loop/incoming_task_queue.h and incoming_task_queue.cpp,
--                   libHH/base/pending_task.h, and the work queue of message_loop.cpp; the threads
--                   that post are a sequence of actions
--   Base.MessageLoop
--                   libHH/base/message_loop/message_loop.cpp and message_pump_default.cpp, with
--                   libHH/base/pending_task.cpp: one loop on the default pump, between two posts
--   Base.AtExit     libHH/base/at_exit.h and at_exit.cpp
--   Base.Numbers    libHH/base/strings/string_number_conversions.cc, with CheckedUnsignedAbs of
--                   libHH/base/numerics/safe_math_impl.h: the templates' parameters are data types
--   Base.Split      libHH/base/strings/string_split.cc, with TrimString and JoinString of string_util.cc
--   Base.SafeMath   libHH/base/numerics/safe_math_impl.h: the checked operations; Numeric is
--                   CheckedNumeric of safe_math.h
--   Base.Pattern    libHH/base/strings/pattern.cc; Matches says what a pattern matches
--   Base.CommandLine
--                   libHH/base/command_line.h and command_line.cpp, with ToLowerASCII and
--                   TrimWhitespace; Quote is the string of a command line, Process the static
--                   members; ToArgv states the documented rules of CommandLineToArgvW, and
--                   SampleArgv is one splitting that keeps them
--   Ipc.Message     libHH/ipc/ipc_message.h and ipc_message.cpp
--   Ipc.ChannelReader
--                   libHH/ipc/ipc_channel_reader.h and ipc_channel_reader.cpp, with the constants of
--                   ipc_channel.h; Frames says what a byte stream holds without the reader
--   Ipc.ParamTraits libHH/ipc/ipc_message_utils.h, ipc_message_utils.cpp and
--                   ipc_message_utils_impl.h: a ParamTraits is a record, a template of them a
--                   function between records; Nested is a message as a parameter, Log is LogData
--   Ipc.FilterRouter
--                   libHH/ipc/message_filter_router.h and message_filter_router.cpp
--
-- Memory and faults: a block is the list of its bytes and a pointer is an offset into it. A
-- function returns none where the code would follow a null header or leave its block. `realloc`
-- (record Allocator), the growth of `std::string` (record Growth), the virtual functions of filters
-- (record Filters), Windows' splitting of a command line (record ArgvRules), what a closure
-- registers, does to its loop, or posts as it is destroyed, what is white space, the reading of a character of UTF-8 or
-- UTF-16, the answers of `ReadData` and the process id of the sender are parameters.
--
-- Bounds: pickles are followed up to 1 GB of payload and 1 MB of header, and text in them up to 1
-- GB. The loop of TranslateInputData runs on fuel, as much as it has bytes; each message takes at
-- least its 16-byte header, so it never runs out. ProcessCallbacksNow has a step of fuel for each
-- callback. DoWork loads its work queue at most twice, so three iterations are enough. SplitString,
-- EatSameChars and EatWildcard have a step of fuel for each character. MatchPattern counts down the
-- depth that it allows itself.
--
-- Not modelled: the pumps of Windows and threads, the pipes and the channel proxy, the message macros,
-- reference counts and weak pointers, UTF-8, key and value pairs and the placeholders of strings,
-- narrow and floating-point checked numbers, and logging.
pub mod Common
pub mod Base
pub mod Ipc
