-- ===== src/Ipc/ChannelReader/Translate.antt =====
-- `TranslateInputData` on any input: which messages it receives, what it keeps for later, and when
-- it refuses.
use lib_hh_old.Common.{
  ℕ, zero, suc, ◌≤◌, ◌<◌, ◌^◌, ◌≡◌, refl, sym, ap, ◌∙◌, ◌⊎◌, inl, inr, Bool, true, false, some,
  none, List, [], ◌∷◌, ◌++◌, arith, leb, leb→le, ==_iff, ◌==◌, if◌then◌else◌, ◌>>=◌, Bool-cases,
  Option-cases, map, length, length-append, length-drop, drop, take, All,
}
use lib_hh_old.Common.Bytes.{IsByte, append-IsByte}
use lib_hh_old.Common.Int.{ℤ, pos, add_size}
use lib_hh_old.Base.Pickle.{Allocator}
use lib_hh_old.Ipc.ChannelReader.{
  ChannelReader, Growth, Text, LoopEnd, refused, left, check_message_size, translate_loop,
  translate_input_data, finish_translation, save_partial_data, adjust_buffer, append,
  maximum_message_size, read_buffer_size,
}
use lib_hh_old.Ipc.ChannelReader.Frames.{
  next_frame, next_frame_bounds, announced_size, frames_within, left_within, frames, left_over,
  find_next-next_frame, left_over_all,
}
use lib_hh_old.Ipc.ChannelReader.Handle.{
  Received, wire, to_queue, to_channel, handle-Received, refl-Received, trans-Received,
}

-- How the loop ends: a frame that announces more than the maximum is refused.
abbrev loop_end : ChannelReader → List ℕ → LoopEnd
loop_end r rest =
    if leb (announced_size rest) maximum_message_size
    then left r rest (announced_size rest)
    else refused (check_message_size r (announced_size rest)).0

drop-All : (n : ℕ) (bytes : List ℕ) → All IsByte bytes → All IsByte (drop n bytes)
drop-All zero bytes h = h
drop-All (suc n) [] h = tt
drop-All (suc n) (b ∷ bytes) h = drop-All n bytes h.1

module _ (alloc : Allocator) (pid : ℤ) where
  abbrev LoopResult : ℕ → List ℕ → ChannelReader → Type 0
  LoopResult fuel range r =
      (r' : ChannelReader) × Received pid r (frames_within fuel range) r'
      × (translate_loop alloc pid fuel range r ≡ some (loop_end r' (left_within fuel range)))

  -- The loop stops at an unfinished frame.
  loop_stops :
      (fuel b : ℕ) (range : List ℕ) (r : ChannelReader)
      → All IsByte (b ∷ range)
      → length (b ∷ range) ≤ 2 ^ 30
      → next_frame (b ∷ range) ≡ none
      → LoopResult (suc fuel) (b ∷ range) r
  unfolding translate_loop frames_within left_within check_message_size
  loop_stops fuel b range r bytes small e =
      let (stop, announced) = find_next-next_frame (b ∷ range) bytes small in
      (
        r,
        rw (e, frames_within) (refl-Received pid r),
        rw (stop ∙ e, e, announced e, translate_loop, left_within) (ground arith),
      )

  -- And takes a whole one, and goes on behind it.
  loop_takes :
      (fuel b n : ℕ) (range : List ℕ) (r : ChannelReader)
      → All IsByte (b ∷ range)
      → length (b ∷ range) ≤ 2 ^ 30
      → next_frame (b ∷ range) ≡ some n
      → ((s : ChannelReader) → LoopResult fuel (drop n (b ∷ range)) s)
      → LoopResult (suc fuel) (b ∷ range) r
  unfolding translate_loop frames_within left_within
  loop_takes fuel b n range r bytes small e rest =
      let (stop, announced) = find_next-next_frame (b ∷ range) bytes small in
      let (s, handled, first) = handle-Received (b ∷ range) n e small alloc pid r in
      let (t, others, run) = rest s in
      (
        t,
        rw (e, frames_within) (trans-Received pid r s t (take n (b ∷ range) ∷ []) _ first others),
        rw (stop ∙ e, e, handled, translate_loop, left_within) run,
      )

  -- Enough fuel is given: the loop never stops for want of it.
  translate_loop-Received :
      (fuel : ℕ) (range : List ℕ) (r : ChannelReader)
      → length range ≤ fuel
      → All IsByte range
      → length range ≤ 2 ^ 30
      → LoopResult fuel range r
  translate_loop-Received zero [] r h bytes small = (
    r,
    unfold frames_within in refl-Received pid r,
    unfold translate_loop left_within announced_size in refl,
  )
  translate_loop-Received zero (b ∷ range) r h bytes small = absurd (omega arith)
  translate_loop-Received (suc fuel) [] r h bytes small = (
    r,
    unfold frames_within next_frame in refl-Received pid r,
    unfold translate_loop left_within next_frame announced_size in refl,
  )
  translate_loop-Received (suc fuel) (b ∷ range) r h bytes small =
      elim (Option-cases (next_frame (b ∷ range))) [
        | inl e ↦ loop_stops fuel b range r bytes small e
        | inr (n, e) ↦
            let (size_eq, lo, hi) = next_frame_bounds (b ∷ range) e in
            let shorter = length-drop n (b ∷ range) in
            loop_takes fuel b n range r bytes small e λ s.
              translate_loop-Received fuel (drop n (b ∷ range)) s (omega (arith, shorter, lo))
                (drop-All n (b ∷ range) bytes) (omega (arith, shorter))
      ]

  translate_loop-frames :
      (whole : List ℕ) (r : ChannelReader)
      → All IsByte whole
      → length whole ≤ 2 ^ 30
      → (r' : ChannelReader) × Received pid r (frames whole) r'
        × (translate_loop alloc pid (length whole) whole r ≡ some (loop_end r' (left_over whole)))
  unfolding frames left_over
  translate_loop-frames whole r bytes small =
      translate_loop-Received (length whole) whole r (omega arith) bytes small

length_zero : (xs : List ℕ) → length xs ≡ 0 → xs ≡ []
length_zero [] h = refl
length_zero (x ∷ xs) h = absurd (omega arith)

-- The buffer management at the end keeps the bytes and the messages.
record SameMessages (r s : ChannelReader) : Type 0 where
  pub chars_eq : s.input_overflow_buf.chars ≡ r.input_overflow_buf.chars
  pub queued_eq : s.queued_messages ≡ r.queued_messages
  pub internal_eq : s.internal ≡ r.internal
  pub dispatched_eq : s.dispatched ≡ r.dispatched

adjust_buffer-SameMessages :
    (growth : Growth) (r : ChannelReader) (n : ℕ) → SameMessages r (adjust_buffer growth r n)
unfolding adjust_buffer
adjust_buffer-SameMessages growth r n = record {
  chars_eq = ground arith;
  queued_eq = ground arith;
  internal_eq = ground arith;
  dispatched_eq = ground arith;
}

save_partial_data-chars :
    (growth : Growth) (buf : Text) (from_overflow : Bool) (whole : List ℕ)
    → (from_overflow ≡ true → buf.chars ≡ whole)
    → (save_partial_data growth buf from_overflow (left_over whole)).chars ≡ left_over whole
unfolding save_partial_data
save_partial_data-chars growth buf false whole h = refl
save_partial_data-chars growth buf true whole h =
    elim (Bool-cases (length (left_over whole) == length buf.chars)) [
      | inl same ↦
          rw same (h refl ∙ sym (left_over_all whole ((==_iff _ _).0 same ∙ ap length (h refl))))
      | inr other ↦ rw other refl
    ]

-- The outcome of one input, where `whole` is what was kept before and the input: the whole frames
-- are received in order. The answer is `true`, and what is left is kept, unless the unfinished frame
-- announces more than the maximum: then the answer is `false` and nothing is kept.
pub record Translated (pid : ℤ) (r : ChannelReader) (whole : List ℕ) (r' : ChannelReader)
    (ok : Bool) : Type 0 where
  pub queued :
      map wire r'.queued_messages
      ≡ map wire r.queued_messages ++ map (λ frame. (some frame, pid)) (to_queue (frames whole))
  pub internal :
      map wire r'.internal
      ≡ map wire r.internal ++ map (λ frame. (some frame, pos 0)) (to_channel (frames whole))
  pub same_dispatched : r'.dispatched ≡ r.dispatched
  pub answer : ok ≡ leb (announced_size (left_over whole)) maximum_message_size
  pub kept : r'.input_overflow_buf.chars ≡ (if ok then left_over whole else [])

module _ (growth : Growth) (alloc : Allocator) (pid : ℤ) (r : ChannelReader) where
  -- The loop over `whole`, and what follows it.
  finish-Translated :
      (start : ChannelReader) (from_overflow : Bool) (whole : List ℕ)
      → (from_overflow ≡ true → start.input_overflow_buf.chars ≡ whole)
      → (start.queued_messages ≡ r.queued_messages)
      → (start.internal ≡ r.internal)
      → (start.dispatched ≡ r.dispatched)
      → All IsByte whole
      → length whole ≤ 2 ^ 30
      → (r' : ChannelReader) × (ok : Bool) × ((translate_loop alloc pid (length whole) whole start
            >>= finish_translation growth alloc pid from_overflow)
          ≡ some (r', ok))
        × Translated pid r whole r' ok
  unfolding finish_translation
  finish-Translated start from whole same q i d bytes small =
      let (s, got, run) = translate_loop-frames alloc pid whole start bytes small in
      let rest : List ℕ = left_over whole in
      let queued_eq =
        got.queued ∙ ap (λ l. map wire l ++ map (λ f. (some f, pid)) (to_queue (frames whole))) q in
      let internal_eq =
        got.internal
        ∙ ap (λ l. map wire l ++ map (λ f. (some f, pos 0)) (to_channel (frames whole))) i in
      elim (Bool-cases (leb (announced_size rest) maximum_message_size)) [
        | inl fits ↦
            let saved : Text = save_partial_data growth s.input_overflow_buf from rest in
            let t : ChannelReader = record s { input_overflow_buf = saved } in
            let adjusted = adjust_buffer-SameMessages growth t (announced_size rest) in
            (
              adjust_buffer growth t (announced_size rest),
              true,
              rw (run, fits) refl,
              record {
                queued = ap (map wire) adjusted.queued_eq ∙ queued_eq;
                internal = ap (map wire) adjusted.internal_eq ∙ internal_eq;
                same_dispatched = adjusted.dispatched_eq ∙ got.same_dispatched ∙ d;
                answer = sym fits;
                kept =
                    adjusted.chars_eq
                    ∙ save_partial_data-chars growth s.input_overflow_buf from whole
                        (λ e. ap (λ (b : Text). b.chars) got.same_buffer ∙ same e);
              },
            )
        | inr big ↦
            let cleared : ChannelReader = record s {
              input_overflow_buf = record (s.input_overflow_buf) { chars = [] };
            } in
            (
              cleared,
              false,
              rw (run, big) (unfold check_message_size in rw big refl),
              record {
                queued = queued_eq;
                internal = internal_eq;
                same_dispatched = got.same_dispatched ∙ d;
                answer = sym big;
                kept = refl;
              },
            )
      ]

  -- TranslateInputData on at most a read buffer of input, with at most one maximal message kept from
  -- before, never faults and never loops: where bytes were kept and the input takes them over the
  -- maximum it refuses, drops them and changes nothing else; else it queues the frames of the kept
  -- bytes and the input in order, gives each hello to the channel, answers whether the size
  -- announced by the unfinished frame fits the maximum, and keeps that frame if so and nothing if
  -- not.
  pub translate_input_data-Translated :
      (input : List ℕ)
      → All IsByte r.input_overflow_buf.chars
      → All IsByte input
      → length r.input_overflow_buf.chars ≤ maximum_message_size
      → length input ≤ read_buffer_size
      → (r' : ChannelReader) × (ok : Bool) × (translate_input_data growth alloc pid r input
          ≡ some (r', ok))
        × (((0 < length r.input_overflow_buf.chars)
              × (maximum_message_size < length (r.input_overflow_buf.chars ++ input))
              × (ok ≡ false)
              × (r'
                  ≡ record r { input_overflow_buf = record (r.input_overflow_buf) { chars = [] } }))
            ⊎ (((r.input_overflow_buf.chars ≡ [])
                  ⊎ (length (r.input_overflow_buf.chars ++ input) ≤ maximum_message_size))
                × Translated pid r (r.input_overflow_buf.chars ++ input) r' ok))
  unfolding translate_input_data
  translate_input_data-Translated input kept_bytes bytes kept_size size =
      elim (Bool-cases (length chars == 0)) [
        | inl empty ↦
            let nothing : chars ≡ [] = length_zero chars ((==_iff _ _).0 empty) in
            let (r', ok, run, done) =
              finish-Translated r false input (λ e. cc) refl refl refl bytes (omega arith) in
            let same : chars ++ input ≡ input = ap (λ l. l ++ input) nothing in
            (r', ok, rw empty run, inr (inl nothing, rw same done))
        | inr some_kept ↦ elim (Bool-cases (leb (length (chars ++ input)) maximum_message_size)) [
          | inl fits ↦
              let (r', ok, run, done) =
                finish-Translated
                  (record r { input_overflow_buf = append growth r.input_overflow_buf input }) true
                  (chars ++ input) (λ e. refl) refl refl refl
                  (append-IsByte chars input kept_bytes bytes) (omega (arith, leb→le _ _ fits)) in
              (
                r',
                ok,
                rw (some_kept, total) (unfold check_message_size in rw fits run),
                inr (inr (leb→le _ _ fits), done),
              )
          | inr over ↦ (
            record r { input_overflow_buf = record (r.input_overflow_buf) { chars = [] } },
            false,
            rw (some_kept, total) (unfold check_message_size in rw over refl),
            inl (ground arith, ground arith, refl, refl),
          )
        ]
      ]
    where
      chars : List ℕ
      chars = r.input_overflow_buf.chars

      total :
          add_size (length r.input_overflow_buf.chars) (length input)
          ≡ length (r.input_overflow_buf.chars ++ input)
      total = omega (arith, length-append r.input_overflow_buf.chars input)
