-- ===== src/Ipc/ChannelReader/Dispatch.antt =====
-- Whole runs of the reader: what reaches the listener, in which order, when the pipe delivers a
-- stream of bytes in pieces.
use mathlib.Core.List.{map-append}
use lib_hh_old.Common.{
  ℕ, ◌≤◌, ◌≡◌, refl, sym, ap, ap₂, ◌∙◌, inl, inr, true, not, Option, some, none, List, [], ◌∷◌,
  ◌++◌, map, arith, le→leb, append_assoc, append-nil, length, All,
}
use lib_hh_old.Common.Bytes.{IsByte, append-IsByte}
use lib_hh_old.Common.Int.{ℤ}
use lib_hh_old.Base.Pickle.{Allocator}
use lib_hh_old.Ipc.Message.{Message}
use lib_hh_old.Ipc.ChannelReader.{
  ChannelReader, Growth, new_reader, succeeded, finished, dispatch_queue, dispatch_messages,
  async_read_complete, process_incoming_messages, maximum_message_size, read_buffer_size,
}
use lib_hh_old.Ipc.ChannelReader.Frames.{
  frames, left_over, announced_size, is_internal_frame, left_over-IsByte, next_frame,
  length-left_over-le,
}
use lib_hh_old.Ipc.ChannelReader.Handle.{wire, to_queue, tagged_append}
use lib_hh_old.Ipc.ChannelReader.Translate.{translate_input_data-Translated}
use lib_hh_old.Ipc.ChannelReader.Chunks.{
  frames-append, concat, left_over-next, frames-none, next_frame_nil, frames-concat, IsFrame,
}

-- The pieces that the reader accepts after it has kept some bytes: each fits the read buffer, what
-- is kept and the piece fit the maximum, and so does the size that the unfinished frame announces.
abbrev pub Accepted : List ℕ → List (List ℕ) → Type 0
Accepted kept [] = Unit {0}
Accepted kept (piece ∷ pieces) =
    All IsByte piece
    × (length piece ≤ read_buffer_size)
    × (length (kept ++ piece) ≤ maximum_message_size)
    × (announced_size (left_over (kept ++ piece)) ≤ maximum_message_size)
    × Accepted (left_over (kept ++ piece)) pieces

-- `DispatchMessages` empties the queue in order.
dispatch_queue_lem :
    (ms : List Message) (r : ChannelReader)
    → dispatch_queue ms r ≡ record r { dispatched = r.dispatched ++ ms; queued_messages = [] }
unfolding dispatch_queue
dispatch_queue_lem [] r =
    ap (λ l. record r { dispatched = l; queued_messages = [] }) (sym (append-nil r.dispatched))
dispatch_queue_lem (m ∷ ms) r =
    dispatch_queue_lem ms (record r { dispatched = r.dispatched ++ (m ∷ []); queued_messages = ms })
    ∙ ap (λ l. record r { dispatched = l; queued_messages = [] })
        (append_assoc r.dispatched (m ∷ []) ms)

-- The tagged frames of two batches that go to the queue.
queue_tags : ℤ → List (List ℕ) → List (Option (List ℕ) × ℤ)
queue_tags pid fs = map (λ frame. (some frame, pid)) (to_queue fs)

queue_tags-append :
    (pid : ℤ) (start : List (Option (List ℕ) × ℤ)) (xs ys : List (List ℕ))
    → (start ++ queue_tags pid xs) ++ queue_tags pid ys ≡ start ++ queue_tags pid (xs ++ ys)
unfolding queue_tags
queue_tags-append pid start xs ys = tagged_append (λ f. not (is_internal_frame f)) pid start xs ys

module _ (growth : Growth) (alloc : Allocator) (pid : ℤ) where
  -- What one accepted piece does to a reader with an empty queue.
  record Round (r : ChannelReader) (whole : List ℕ) (r' : ChannelReader) : Type 0 where
    pub kept_eq : r'.input_overflow_buf.chars ≡ left_over whole
    pub queue_empty : r'.queued_messages ≡ []
    pub heard : map wire r'.dispatched ≡ map wire r.dispatched ++ queue_tags pid (frames whole)

  async_read_complete-Round :
      (r : ChannelReader) (piece : List ℕ)
      → r.queued_messages ≡ []
      → All IsByte r.input_overflow_buf.chars
      → All IsByte piece
      → length r.input_overflow_buf.chars ≤ maximum_message_size
      → length piece ≤ read_buffer_size
      → length (r.input_overflow_buf.chars ++ piece) ≤ maximum_message_size
      → announced_size (left_over (r.input_overflow_buf.chars ++ piece)) ≤ maximum_message_size
      → (r' : ChannelReader) × (async_read_complete growth alloc pid r piece ≡ some (r', finished))
        × Round r (r.input_overflow_buf.chars ++ piece) r'
  unfolding async_read_complete dispatch_messages queue_tags
  async_read_complete-Round r piece empty kept_bytes bytes kept_size size fits announced =
      let (s, ok, run, outcome) =
        translate_input_data-Translated growth alloc pid r piece kept_bytes bytes kept_size size in
      elim outcome [
        | inl (_, over, _, _) ↦ absurd (omega arith)
        | inr (_, done) ↦
            let yes_ok : ok ≡ true = done.answer ∙ le→leb _ _ announced in
            let after : dispatch_queue s.queued_messages s ≡ record s {
              dispatched = s.dispatched ++ s.queued_messages;
              queued_messages = [];
            } =
              dispatch_queue_lem s.queued_messages s in
            (
              record s { dispatched = s.dispatched ++ s.queued_messages; queued_messages = [] },
              rw (run, yes_ok, after) refl,
              record {
                kept_eq = done.kept ∙ rw yes_ok refl;
                queue_empty = refl;
                heard =
                    map-append wire s.dispatched s.queued_messages
                    ∙ ap₂ ◌++◌ (ap (map wire) done.same_dispatched) (
                        done.queued
                        ∙ ap
                            (λ l.
                              map wire l
                              ++ queue_tags pid (frames (r.input_overflow_buf.chars ++ piece)))
                            empty);
              },
            )
      ]

  abbrev Heard : List (List ℕ) → ChannelReader → Type 0
  Heard pieces r =
      (r' : ChannelReader) × (process_incoming_messages growth alloc pid (map succeeded pieces) r
        ≡ some (r', finished))
      × (map wire r'.dispatched
          ≡ map wire r.dispatched
            ++ queue_tags pid (frames (r.input_overflow_buf.chars ++ concat pieces)))
      × (r'.input_overflow_buf.chars ≡ left_over (r.input_overflow_buf.chars ++ concat pieces))

  process-Heard :
      (pieces : List (List ℕ)) (r : ChannelReader)
      → r.queued_messages ≡ []
      → next_frame r.input_overflow_buf.chars ≡ none
      → All IsByte r.input_overflow_buf.chars
      → length r.input_overflow_buf.chars ≤ maximum_message_size
      → Accepted r.input_overflow_buf.chars pieces
      → Heard pieces r
  unfolding process_incoming_messages
  process-Heard [] r empty unfinished kept_bytes kept_size accepted =
      let kept : List ℕ = r.input_overflow_buf.chars in
      let (no_frames, all_left) = frames-none kept unfinished in
      (
        r,
        refl,
        rw (append-nil kept, no_frames)
            (unfold queue_tags in sym (append-nil (map wire r.dispatched))),
        rw (append-nil kept) (sym all_left),
      )
  process-Heard (piece ∷ pieces) r empty unfinished kept_bytes kept_size
        (bytes, size, fits, announced, rest) =
      let kept : List ℕ = r.input_overflow_buf.chars in
      let whole : List ℕ = kept ++ piece in
      let (s, run, round) =
        async_read_complete-Round r piece empty kept_bytes bytes kept_size size fits announced in
      let (split, split') = frames-append whole (concat pieces) in
      let (t, run', heard, left_eq) =
        process-Heard pieces s round.queue_empty (rw round.kept_eq (left_over-next whole))
          (rw round.kept_eq (left_over-IsByte whole (append-IsByte kept piece kept_bytes bytes)))
          (rw round.kept_eq (omega (arith, length-left_over-le whole))) (rw round.kept_eq rest) in
      (
        t,
        rw run run',
        heard
            ∙ ap₂ (λ d k. d ++ queue_tags pid (frames (k ++ concat pieces))) round.heard
                round.kept_eq
            ∙ queue_tags-append pid (map wire r.dispatched) (frames whole)
                (frames (left_over whole ++ concat pieces))
            ∙ ap (λ fs. map wire r.dispatched ++ queue_tags pid fs)
                (sym split ∙ ap frames (append_assoc kept piece (concat pieces))),
        left_eq
            ∙ ap (λ k. left_over (k ++ concat pieces)) round.kept_eq
            ∙ sym split'
            ∙ ap left_over (append_assoc kept piece (concat pieces)),
      )

  -- Over a pipe that delivers accepted pieces a new reader never faults; the listener hears exactly
  -- the messages whose frames lie in the whole stream, the hello left out, in order and with the
  -- sender's process id, however the stream is cut; what is kept is the unfinished frame at the end.
  pub process_incoming_messages-frames :
      (pieces : List (List ℕ))
      → Accepted [] pieces
      → (r' : ChannelReader) × (process_incoming_messages growth alloc pid
            (map succeeded pieces)
            (new_reader growth)
          ≡ some (r', finished))
        × (map wire r'.dispatched
            ≡ map (λ frame. (some frame, pid)) (to_queue (frames (concat pieces))))
        × (r'.input_overflow_buf.chars ≡ left_over (concat pieces))
  unfolding new_reader queue_tags
  process_incoming_messages-frames pieces accepted =
      process-Heard pieces (new_reader growth) refl next_frame_nil tt (omega arith) accepted

  -- Whole frames that were sent one after the other are all heard by the listener, in order and with
  -- the sender's process id, but for the hello, and nothing is kept, however the pipe cuts them into
  -- pieces that the reader accepts (each fits the read buffer, and what is kept and announced fits
  -- the maximum message size).
  pub process_incoming_messages-sent :
      (sent pieces : List (List ℕ))
      → All IsFrame sent
      → concat pieces ≡ concat sent
      → Accepted [] pieces
      → (r' : ChannelReader) × (process_incoming_messages growth alloc pid
            (map succeeded pieces)
            (new_reader growth)
          ≡ some (r', finished))
        × (map wire r'.dispatched ≡ map (λ frame. (some frame, pid)) (to_queue sent))
        × (r'.input_overflow_buf.chars ≡ [])
  process_incoming_messages-sent sent pieces ok same accepted =
      let (r', run, heard, kept) = process_incoming_messages-frames pieces accepted in
      let (all, nothing) = frames-concat sent ok in
      (
        r',
        run,
        heard ∙ ap (λ fs. map (λ frame. (some frame, pid)) (to_queue fs)) (ap frames same ∙ all),
        kept ∙ ap left_over same ∙ nothing,
      )
