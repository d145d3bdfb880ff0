-- ===== src/Ipc/ChannelReader/Handle.antt =====
-- What the reader does with one whole frame: the hello goes to the channel, and any other message is
-- copied and queued.
use lib_hh_old.Common.{
  ℕ, ◌+◌, ◌≤◌, ◌^◌, ◌≡◌, refl, sym, ap, ◌∙◌, inl, inr, Bool, true, false, not, Option, some, List,
  [], ◌∷◌, ◌++◌, map, arith, if◌then◌else◌, Bool-cases, length, take, take-take, append-nil,
  append_assoc,
}
use mathlib.Core.List.{map-append}
use lib_hh_old.Common.Slices.{slice, load_lem, slice-of_take}
use lib_hh_old.Common.Bytes.{le_value}
use lib_hh_old.Common.Int.{ℤ, pos}
use lib_hh_old.Base.Pickle.{Allocator, contents, view}
use lib_hh_old.Base.Pickle.View.{Sized, view-accepts}
use lib_hh_old.Base.Pickle.Copy.{IsReadable, copy-Copied, contents-IsReadable}
use lib_hh_old.Ipc.Message.{
  Message, view_message, copy_message, set_sender_pid, routing_id, message_type, header_field,
}
use lib_hh_old.Ipc.ChannelReader.{
  ChannelReader, handle_translated_message, queue, is_internal_message,
}
use lib_hh_old.Ipc.ChannelReader.Frames.{
  frame_size, next_frame, next_frame_bounds, is_internal_frame,
}

-- What a message shows of itself: the bytes of `data()` and `size()`, and the sender.
abbrev pub wire : Message → Option (List ℕ) × ℤ
wire m = (contents m.pickle, m.sender_pid)

abbrev pub keep {ℓ} : {A : Type ℓ} → (A → Bool) → List A → List A
keep p [] = []
keep p (x ∷ xs) = if p x then x ∷ keep p xs else keep p xs

-- The frames that go to the queue, and those that go to the channel itself.
abbrev pub to_queue : List (List ℕ) → List (List ℕ)
to_queue = keep (λ frame. not (is_internal_frame frame))

abbrev pub to_channel : List (List ℕ) → List (List ℕ)
to_channel = keep is_internal_frame

-- `r'` is `r` after it has received the frames, in order, and nothing else.
pub record Received (pid : ℤ) (r : ChannelReader) (received : List (List ℕ)) (r' : ChannelReader)
    : Type 0 where
  pub same_buffer : r'.input_overflow_buf ≡ r.input_overflow_buf
  pub same_limit : r'.max_input_buffer_size ≡ r.max_input_buffer_size
  pub same_dispatched : r'.dispatched ≡ r.dispatched
  pub queued :
      map wire r'.queued_messages
      ≡ map wire r.queued_messages ++ map (λ frame. (some frame, pid)) (to_queue received)
  pub internal :
      map wire r'.internal
      ≡ map wire r.internal ++ map (λ frame. (some frame, pos 0)) (to_channel received)

-- The view of the first frame of a range.
module _ (range : List ℕ) (n : ℕ) (first : next_frame range ≡ some n)
    (small : length range ≤ 2 ^ 30) where
  bounds : (n ≡ frame_size range) × (16 ≤ n) × (n ≤ length range)
  bounds = next_frame_bounds range first

  abbrev m : Message
  m = view_message range n

  sized : Sized range n (view range n)
  sized =
      let (size_eq, lo, hi) = bounds in
      view-accepts range n (omega arith) (omega arith) (omega arith) (omega arith)

  header_size-view : (view range n).header_size ≡ 16
  header_size-view = let (size_eq, lo, hi) = bounds in omega (arith, sized.1)

  pub view-IsReadable : IsReadable (view range n) range
  view-IsReadable =
      let (size_eq, lo, hi) = bounds in
      record {
        header_eq = sized.0;
        header_whole = sized.3;
        header_bound = omega (arith, header_size-view);
        payload_bound = omega arith;
        inside = omega (arith, sized.1);
      }

  contents-view : contents (view range n) ≡ some (take n range)
  contents-view =
      contents-IsReadable (view range n) range view-IsReadable
      ∙ ap (λ k. some (take k range)) sized.1

  -- A header field that lies inside the frame.
  header_field-view :
      (at : ℕ) → at + 4 ≤ 16 → header_field at m ≡ some (le_value (slice at 4 (take n range)))
  unfolding header_field view_message
  header_field-view at h =
      let (size_eq, lo, hi) = bounds in
      rw (sized.0, load_lem range at 4 (omega arith))
        (ap (λ bytes. some (le_value bytes)) (sym inside))
    where
      inside : slice at 4 (take n range) ≡ slice at 4 range
      inside =
          slice-of_take at 4 n (take n range) range (omega (arith, bounds.1))
            (take-take n n range (omega arith))

  is_internal-view : is_internal_message m ≡ some (is_internal_frame (take n range))
  unfolding is_internal_message routing_id message_type is_internal_frame
  is_internal-view =
      rw (header_field-view 4 (omega arith), header_field-view 8 (omega arith)) (ground arith)

  module _ (alloc : Allocator) (pid : ℤ) (r : ChannelReader) where
    abbrev Handled : Type 0
    Handled =
        (r' : ChannelReader) × (handle_translated_message alloc pid r m ≡ some (r', true))
        × Received pid r (take n range ∷ []) r'

    to_channel_case : is_internal_frame (take n range) ≡ true → Handled
    unfolding handle_translated_message view_message
    to_channel_case hello = (
      record r { internal = r.internal ++ (m ∷ []) },
      rw (is_internal-view, hello),
      record {
        same_buffer = refl;
        same_limit = refl;
        same_dispatched = refl;
        queued = rw hello (sym (append-nil (map wire r.queued_messages)));
        internal = rw hello (
            map-append wire r.internal (m ∷ [])
            ∙ ap (λ c. map wire r.internal ++ ((c, pos 0) ∷ [])) contents-view);
      },
    )

    to_queue_case : is_internal_frame (take n range) ≡ false → Handled
    unfolding handle_translated_message queue copy_message set_sender_pid view_message
    to_queue_case other =
        let (p, block, copied, holds, offset) =
          copy-Copied alloc (view range n) range view-IsReadable in
        let added : Message = record { pickle = p; sender_pid = pid } in
        (
          record r { queued_messages = r.queued_messages ++ (added ∷ []) },
          rw (is_internal-view, other, copied),
          record {
            same_buffer = refl;
            same_limit = refl;
            same_dispatched = refl;
            queued = rw other (
                map-append wire r.queued_messages (added ∷ [])
                ∙ ap (λ c. map wire r.queued_messages ++ ((c, pid) ∷ []))
                    (holds.same_contents ∙ contents-view));
            internal = rw other (sym (append-nil (map wire r.internal)));
          },
        )

    -- One whole frame at the start of a range is received.
    pub handle-Received : Handled
    handle-Received = elim (Bool-cases (is_internal_frame (take n range))) [
      | inl hello ↦ to_channel_case hello
      | inr other ↦ to_queue_case other
    ]

pub keep-append {ℓ} :
    {A : Type ℓ} (p : A → Bool) (xs ys : List A) → keep p (xs ++ ys) ≡ keep p xs ++ keep p ys
keep-append p [] ys = refl
keep-append p (x ∷ xs) ys = ground (arith, keep-append p xs ys)

pub refl-Received : (pid : ℤ) (r : ChannelReader) → Received pid r [] r
refl-Received pid r = record {
  same_buffer = refl;
  same_limit = refl;
  same_dispatched = refl;
  queued = sym (append-nil (map wire r.queued_messages));
  internal = sym (append-nil (map wire r.internal));
}

-- The kept frames of two batches, tagged with a sender.
pub tagged_append :
    (p : List ℕ → Bool) (tag : ℤ) (start : List (Option (List ℕ) × ℤ)) (xs ys : List (List ℕ))
    → (start ++ map (λ f. (some f, tag)) (keep p xs)) ++ map (λ f. (some f, tag)) (keep p ys)
      ≡ start ++ map (λ f. (some f, tag)) (keep p (xs ++ ys))
tagged_append p tag start xs ys =
    append_assoc start _ _
    ∙ ap (◌++◌ start) (
        sym (map-append (λ f. (some f, tag)) (keep p xs) (keep p ys))
        ∙ ap (map (λ f. (some f, tag))) (sym (keep-append p xs ys)))

pub trans-Received :
    (pid : ℤ) (r s t : ChannelReader) (xs ys : List (List ℕ))
    → Received pid r xs s
    → Received pid s ys t
    → Received pid r (xs ++ ys) t
trans-Received pid r s t xs ys first second = record {
  same_buffer = second.same_buffer ∙ first.same_buffer;
  same_limit = second.same_limit ∙ first.same_limit;
  same_dispatched = second.same_dispatched ∙ first.same_dispatched;
  queued =
      second.queued
      ∙ ap (λ l. l ++ map (λ f. (some f, pid)) (to_queue ys)) first.queued
      ∙ tagged_append (λ f. not (is_internal_frame f)) pid (map wire r.queued_messages) xs ys;
  internal =
      second.internal
      ∙ ap (λ l. l ++ map (λ f. (some f, pos 0)) (to_channel ys)) first.internal
      ∙ tagged_append is_internal_frame (pos 0) (map wire r.internal) xs ys;
}
