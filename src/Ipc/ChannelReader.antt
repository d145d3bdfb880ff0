-- ===== src/Ipc/ChannelReader.antt =====
-- libHH/ipc/ipc_channel_reader.h and ipc_channel_reader.cpp: bytes from a pipe, cut into messages.
-- The virtual functions that a channel supplies are values here: what `ReadData` answers, and the
-- process id of the sender. The messages handed to the listener and to `HandleInternalMessage` are
-- kept in the order of the calls.
pub mod Frames
pub mod Handle
pub mod Translate
pub mod Chunks
pub mod Dispatch
mod Examples
use lib_hh_old.Common.{
  ℕ, zero, suc, ◌+◌, ◌-◌, ◌*◌, ◌≤◌, Bool, true, false, not, ◌&&◌, Option, some, none, List, [], ◌∷◌,
  ◌++◌, ltb, leb, ◌==◌, if◌then◌else◌, ◌>>=◌, length, drop, take,
}
use lib_hh_old.Common.Int.{ℤ, pos, negsuc, add_size, sub_size, eq_ℤ}
use lib_hh_old.Base.Pickle.{Allocator}
use lib_hh_old.Ipc.Message.{
  Message, NextMessageInfo, find_next, view_message, copy_message, routing_id, message_type,
  set_sender_pid,
}

-- `Channel::kMaximumMessageSize`, `kReadBufferSize`, `kMaximumReadBufferSize`.
abbrev pub maximum_message_size : ℕ
maximum_message_size = 128 * 1024 * 1024

abbrev pub read_buffer_size : ℕ
read_buffer_size = 4 * 1024

abbrev pub maximum_read_buffer_size : ℕ
maximum_read_buffer_size = 64 * 1024

-- `MSG_ROUTING_NONE` is -2, and `HELLO_MESSAGE_TYPE` is `UINT16_MAX`.
abbrev pub routing_none : ℤ
routing_none = negsuc 1

abbrev pub hello_message_type : ℕ
hello_message_type = 65535

-- The library's `std::string`: the capacity of an empty one, and the capacity after it made room
-- for `needed` characters.
pub record Growth : Type 0 where
  pub empty_capacity : ℕ
  pub grow : ℕ → ℕ → ℕ
  pub grow_enough : (capacity needed : ℕ) → needed ≤ grow capacity needed

pub record Text : Type 0 where
  pub chars : List ℕ
  pub capacity : ℕ

-- What the channel's `ReadData` answers to one call.
pub data ReadState : Type 0 where
  failed pending : ReadState
  succeeded : List ℕ → ReadState

pub data DispatchState : Type 0 where
  finished error waiting_on_broker : DispatchState

pub record ChannelReader : Type 0 where
  pub input_overflow_buf : Text
  pub max_input_buffer_size : ℕ
  pub queued_messages : List Message
  pub dispatched : List Message
  pub internal : List Message

unfoldable pub new_reader : Growth → ChannelReader
new_reader growth = record {
  input_overflow_buf = record { chars = []; capacity = growth.empty_capacity };
  max_input_buffer_size = maximum_read_buffer_size;
  queued_messages = [];
  dispatched = [];
  internal = [];
}

-- `IsInternalMessage`, and `IsHelloMessage`, whose body is the same.
unfoldable pub is_internal_message : Message → Option Bool
is_internal_message msg = do
  routing ← routing_id msg
  type ← if eq_ℤ routing routing_none then message_type msg else some 0
  some (eq_ℤ routing routing_none && type == hello_message_type)

unfoldable pub check_message_size : ChannelReader → ℕ → ChannelReader × Bool
check_message_size r size =
    if leb size maximum_message_size
    then (r, true)
    else (record r { input_overflow_buf = record (r.input_overflow_buf) { chars = [] } }, false)

-- The end of the loop of `TranslateInputData`: `false`, or what is left and the announced size.
pub data LoopEnd : Type 0 where
  refused : ChannelReader → LoopEnd
  left : ChannelReader → List ℕ → ℕ → LoopEnd

module _ (alloc : Allocator) (pid : ℤ) where
  -- `queued_messages_.push_back(new Message(*translated_message))`, with the sender's process id set.
  unfoldable pub queue : ChannelReader → Message → Option (ChannelReader × Bool)
  queue r m = do
    copied ← copy_message alloc (set_sender_pid pid m)
    some (record r { queued_messages = r.queued_messages ++ (copied ∷ []) }, true)

  unfoldable pub handle_translated_message : ChannelReader → Message → Option (ChannelReader × Bool)
  handle_translated_message r m = do
    is_internal ← is_internal_message m
    if is_internal then some (record r { internal = r.internal ++ (m ∷ []) }, true) else queue r m

  -- The loop over `p` and `end`, on the bytes between them. A message takes at least its header, so
  -- as much fuel as there are bytes is enough (`Translate`); `none` is undefined behaviour.
  unfoldable pub translate_loop : ℕ → List ℕ → ChannelReader → Option LoopEnd
  translate_loop fuel [] r = some (left r [] 0)
  translate_loop zero (b ∷ range) r = none
  translate_loop (suc fuel) (b ∷ range) r = elim (find_next (b ∷ range)).message_end [
    | some message_end ↦
        handle_translated_message r (view_message (b ∷ range) message_end) >>= λ (r', handled).
        if handled then translate_loop fuel (drop message_end (b ∷ range)) r' else some (refused r')
    | none ↦
        let announced : ℕ = (find_next (b ∷ range)).message_size in
        let (r', fits) = check_message_size r announced in
        if fits then some (left r' (b ∷ range) announced) else some (refused r')
  ]

-- `DispatchMessages`: the front message goes to the listener, and then leaves the queue.
unfoldable pub dispatch_queue : List Message → ChannelReader → ChannelReader
dispatch_queue [] r = record r { queued_messages = [] }
dispatch_queue (m ∷ ms) r =
    dispatch_queue ms (record r { dispatched = r.dispatched ++ (m ∷ []); queued_messages = ms })

unfoldable pub dispatch_messages : ChannelReader → ChannelReader × DispatchState
dispatch_messages r = (dispatch_queue r.queued_messages r, finished)

-- The operations of `std::string` that the reader uses.
module _ (growth : Growth) where
  abbrev pub reserve : Text → ℕ → Text
  reserve t n = if ltb t.capacity n then record t { capacity = growth.grow t.capacity n } else t

  abbrev pub assign : Text → List ℕ → Text
  assign t chars = record (reserve t (length chars)) { chars = chars }

  abbrev pub append : Text → List ℕ → Text
  append t chars = assign t (t.chars ++ chars)

  -- `p != input_overflow_buf_.data()` fails only where the bytes came from the overflow buffer and
  -- none of them was consumed.
  unfoldable pub save_partial_data : Text → Bool → List ℕ → Text
  save_partial_data buf from_overflow rest =
      if from_overflow && length rest == length buf.chars then buf else assign buf rest

  -- The reservation for the message that is announced, and the trimming of a large buffer.
  unfoldable pub adjust_buffer : ChannelReader → ℕ → ChannelReader
  adjust_buffer r next_message_size =
      let next_message_buffer_size : ℕ =
        if next_message_size == 0
        then 0
        else sub_size (add_size next_message_size read_buffer_size) 1 in
      let buf : Text = r.input_overflow_buf in
      let reserved : Text =
        if length buf.chars == 0 then buf else reserve buf next_message_buffer_size in
      let trim : Bool =
        ltb next_message_buffer_size r.max_input_buffer_size
        && ltb (length reserved.chars) r.max_input_buffer_size
        && ltb r.max_input_buffer_size reserved.capacity in
      let trimmed : Text =
        reserve (record { chars = []; capacity = growth.empty_capacity }) r.max_input_buffer_size in
      if trim
      then record r {
        max_input_buffer_size =
            if ltb r.max_input_buffer_size trimmed.capacity
            then trimmed.capacity
            else r.max_input_buffer_size;
        input_overflow_buf = assign trimmed reserved.chars;
      }
      else record r { input_overflow_buf = reserved }

  module _ (alloc : Allocator) (pid : ℤ) where
    unfoldable pub finish_translation : Bool → LoopEnd → Option (ChannelReader × Bool)
    finish_translation from_overflow (refused r) = some (r, false)
    finish_translation from_overflow (left r rest next_message_size) =
        let saved : Text = save_partial_data r.input_overflow_buf from_overflow rest in
        some (adjust_buffer (record r { input_overflow_buf = saved }) next_message_size, true)

    unfoldable pub translate_input_data : ChannelReader → List ℕ → Option (ChannelReader × Bool)
    translate_input_data r input_data =
        let buf : Text = r.input_overflow_buf in
        let whole : Text = append buf input_data in
        let (checked, fits) =
          check_message_size r (add_size (length buf.chars) (length input_data)) in
        let appended : ChannelReader = record r { input_overflow_buf = whole } in
        if length buf.chars == 0
        then translate_loop alloc pid (length input_data) input_data r >>= finish_translation false
        else if fits
        then translate_loop alloc pid (length whole.chars) whole.chars appended
          >>= finish_translation true
        else some (checked, false)

    unfoldable pub async_read_complete :
        ChannelReader → List ℕ → Option (ChannelReader × DispatchState)
    async_read_complete r bytes = do
      (r', translated) ← translate_input_data r bytes
      some (if translated then dispatch_messages r' else (r', error))

    -- `ProcessIncomingMessages` over the answers of `ReadData`; when they have all been used the pipe
    -- has nothing more, as for `pending`. A round does what `async_read_complete` does.
    unfoldable pub process_incoming_messages :
        List ReadState → ChannelReader → Option (ChannelReader × DispatchState)
    process_incoming_messages [] r = some (r, finished)
    process_incoming_messages (failed ∷ reads) r = some (r, error)
    process_incoming_messages (pending ∷ reads) r = some (r, finished)
    process_incoming_messages (succeeded bytes ∷ reads) r =
        async_read_complete r bytes >>= λ (r', state). elim state [
          | finished ↦ process_incoming_messages reads r'
          | error ↦ some (r', error)
          | waiting_on_broker ↦ some (r', waiting_on_broker)
        ]
