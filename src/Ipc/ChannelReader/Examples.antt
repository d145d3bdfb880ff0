-- ===== src/Ipc/ChannelReader/Examples.antt =====
-- The theorems on the reader at a concrete stream: a message and a hello, in pieces.
use lib_hh_old.Common.{
  ℕ, ◌≤◌, ◌<◌, ◌≡◌, ◌⊎◌, refl, arith, Bool, true, false, some, List, [], ◌∷◌, ◌++◌, map, take, drop,
  All,
}
use lib_hh_old.Common.Bytes.{le_value, mod-IsByte}
use lib_hh_old.Common.Int.{pos, to_int}
use lib_hh_old.Base.Pickle.Plain.{plain}
use lib_hh_old.Ipc.ChannelReader.{
  ChannelReader, Growth, new_reader, succeeded, finished, process_incoming_messages,
  translate_input_data, maximum_message_size,
}
use lib_hh_old.Ipc.ChannelReader.Frames.{
  frames, left_over, frames_within, left_within, next_frame, announced_size, is_internal_frame,
}
use lib_hh_old.Ipc.ChannelReader.Handle.{wire, to_queue}
use lib_hh_old.Ipc.ChannelReader.Translate.{Translated, translate_input_data-Translated}
use lib_hh_old.Ipc.ChannelReader.Chunks.{concat, IsFrame}
use lib_hh_old.Ipc.ChannelReader.Dispatch.{
  Accepted, process_incoming_messages-frames, process_incoming_messages-sent,
}

abbrev exact_growth : Growth
exact_growth = record {
  empty_capacity = 15;
  grow = λ capacity needed. needed;
  grow_enough = λ capacity needed. omega arith;
}

-- Routing id 7, type 513, and the payload 1, 2, 3, 4.
abbrev message_frame : List ℕ
message_frame = 4 ∷ 0 ∷ 0 ∷ 0 ∷ 7 ∷ 0 ∷ 0 ∷ 0 ∷ 1 ∷ 2 ∷ 0 ∷ 0 ∷ 0 ∷ 0 ∷ 0 ∷ 0 ∷ 1 ∷ 2 ∷ 3 ∷ 4 ∷ []

abbrev hello_frame : List ℕ
hello_frame = 0 ∷ 0 ∷ 0 ∷ 0 ∷ 254 ∷ 255 ∷ 255 ∷ 255 ∷ 255 ∷ 255 ∷ 0 ∷ 0 ∷ 0 ∷ 0 ∷ 0 ∷ 0 ∷ []

abbrev stream : List ℕ
stream = message_frame ++ hello_frame

abbrev pieces : List (List ℕ)
pieces = take 10 stream ∷ drop 10 stream ∷ []

frames-stream : frames stream ≡ message_frame ∷ hello_frame ∷ []
unfolding frames frames_within next_frame le_value
frames-stream = refl

hello_frame-is_internal : is_internal_frame hello_frame ≡ true
unfolding is_internal_frame le_value to_int
hello_frame-is_internal = refl

pieces-Accepted : Accepted [] pieces
unfolding left_over left_within next_frame announced_size le_value
pieces-Accepted = (
  mod-IsByte (take 10 stream),
  omega arith,
  omega arith,
  omega arith,
  (mod-IsByte (drop 10 stream), omega arith, omega arith, omega arith, tt),
)

sent-IsFrame : All IsFrame (message_frame ∷ hello_frame ∷ [])
unfolding le_value
sent-IsFrame = ((omega arith, refl), ((omega arith, refl), tt))

process_incoming_messages-frames_example :
    (r' : ChannelReader) × (process_incoming_messages exact_growth plain
        (pos 42)
        (map succeeded pieces)
        (new_reader exact_growth)
      ≡ some (r', finished))
    × (map wire r'.dispatched
        ≡ map (λ frame. (some frame, pos 42)) (to_queue (frames (concat pieces))))
    × (r'.input_overflow_buf.chars ≡ left_over (concat pieces))
process_incoming_messages-frames_example =
    process_incoming_messages-frames exact_growth plain (pos 42) pieces pieces-Accepted

process_incoming_messages-sent_example :
    (r' : ChannelReader) × (process_incoming_messages exact_growth plain
        (pos 42)
        (map succeeded pieces)
        (new_reader exact_growth)
      ≡ some (r', finished))
    × (map wire r'.dispatched
        ≡ map (λ frame. (some frame, pos 42)) (to_queue (message_frame ∷ hello_frame ∷ [])))
    × (r'.input_overflow_buf.chars ≡ [])
process_incoming_messages-sent_example =
    process_incoming_messages-sent exact_growth plain (pos 42) (message_frame ∷ hello_frame ∷ [])
      pieces sent-IsFrame refl pieces-Accepted

-- A reader that has kept the first ten bytes of the message.
abbrev halfway : ChannelReader
halfway = record (new_reader exact_growth) {
  input_overflow_buf = record { chars = take 10 stream; capacity = 15 };
}

translate_input_data-Translated_example :
    (r' : ChannelReader) × (ok : Bool) × (translate_input_data exact_growth plain
        (pos 42)
        halfway
        (drop 10 stream)
      ≡ some (r', ok))
    × (((0 < 10)
          × (maximum_message_size < 36)
          × (ok ≡ false)
          × (r' ≡ record halfway { input_overflow_buf = record { chars = []; capacity = 15 } }))
        ⊎ (((take 10 stream ≡ []) ⊎ (36 ≤ maximum_message_size))
            × Translated (pos 42) halfway stream r' ok))
translate_input_data-Translated_example =
    translate_input_data-Translated exact_growth plain (pos 42) halfway (drop 10 stream)
      (mod-IsByte (take 10 stream)) (mod-IsByte (drop 10 stream)) (omega arith) (omega arith)
