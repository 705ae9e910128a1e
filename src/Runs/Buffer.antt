-- ===== src/Runs/Buffer.antt =====
-- agent_room/server/runs.py: what the buffer holds of the frames that were appended.
use native.Mathlib.Nat.{zero-add}
use goal_driven_agent_room.Base.{
  ℕ, suc, ◌+◌, ◌-◌, ◌≤◌, ◌≡◌, refl, sym, ap, ◌∙◌, inl, inr, List, [], ◌∷◌, ◌++◌, length, drop, max,
  ltb, arith, ltb→lt, ltb→le, Bool-cases, length-append, length-drop, drop-append_le, drop-drop,
  drop-nil, append_assoc, append-nil, String,
}
use goal_driven_agent_room.Errors.{Error}
use goal_driven_agent_room.Runs.{
  Frame, Run, append, append_all, poll, first_index, buffered_end, new_run, drive, terminal, Ending,
}

-- The frames of a run with their sequence numbers.
abbrev pub numbered : ℕ → List Frame → List (ℕ × Frame)
numbered n [] = []
numbered n (f ∷ fs) = (n, f) ∷ numbered (suc n) fs

length-numbered : (n : ℕ) (fs : List Frame) → length (numbered n fs) ≡ length fs
length-numbered n [] = refl
length-numbered n (f ∷ fs) = omega (arith, length-numbered (suc n) fs)

numbered-append :
    (n : ℕ) (fs : List Frame) (f : Frame)
    → numbered n (fs ++ (f ∷ [])) ≡ numbered n fs ++ ((n + length fs, f) ∷ [])
numbered-append n [] f = ap (λ k. (k, f) ∷ []) (omega arith)
numbered-append n (g ∷ fs) f =
    ap (λ l. (n, g) ∷ l)
      (numbered-append (suc n) fs f ∙ ap (λ k. numbered (suc n) fs ++ ((k, f) ∷ [])) (omega arith))

-- The run has been given these frames: its buffer is the newest `max_buffer` of them.
unfoldable pub IsLog : ℕ → Run → List Frame → Type 0
IsLog max_buffer run frames =
    (run.base_seq ≡ length frames - max_buffer)
    × (run.events ≡ drop (length frames - max_buffer) (numbered 0 frames))

log_length :
    (max_buffer : ℕ) (run : Run) (frames : List Frame)
    → IsLog max_buffer run frames
    → run.base_seq + length run.events ≡ length frames
unfolding IsLog
log_length max_buffer run frames h = omega (
  arith,
  h.0,
  ap length h.1,
  length-drop (length frames - max_buffer) (numbered 0 frames),
  length-numbered 0 frames,
)

log_step :
    (max_buffer : ℕ) (run : Run) (frames : List Frame) (frame : Frame)
    → IsLog max_buffer run frames
    → run.events ++ ((run.base_seq + length run.events, frame) ∷ [])
      ≡ drop (length frames - max_buffer) (numbered 0 (frames ++ (frame ∷ [])))
unfolding IsLog
log_step max_buffer run frames frame h =
    let k = length frames - max_buffer in
    rw (log_length max_buffer run frames h, h.1, numbered-append 0 frames frame, zero-add)
      (sym (
        drop-append_le k (numbered 0 frames) ((length frames, frame) ∷ [])
          (omega (arith, length-numbered 0 frames))))

append-IsLog :
    (max_buffer : ℕ) (run : Run) (frames : List Frame) (frame : Frame)
    → IsLog max_buffer run frames
    → IsLog max_buffer (append max_buffer run frame) (frames ++ (frame ∷ []))
unfolding IsLog append
append-IsLog max_buffer run frames frame h =
    let k = length frames - max_buffer in
    let all = numbered 0 (frames ++ (frame ∷ [])) in
    let events = run.events ++ ((run.base_seq + length run.events, frame) ∷ []) in
    let kept : events ≡ drop k all = log_step max_buffer run frames frame h in
    let size : length events ≡ suc (length frames) - k = omega (
      arith,
      ap length kept,
      length-drop k all,
      length-numbered 0 (frames ++ (frame ∷ [])),
      length-append frames (frame ∷ []),
    ) in
    let next : length (frames ++ (frame ∷ [])) ≡ suc (length frames) =
      omega (arith, length-append frames (frame ∷ [])) in
    elim (Bool-cases (ltb max_buffer (length events))) [
      | inl over ↦ rw over (
        omega (arith, h.0, size, next, ltb→lt max_buffer (length events) over),
        ap (drop (length events - max_buffer)) kept
            ∙ drop-drop _ k all
            ∙ ap (λ n. drop n all)
                (omega (arith, size, next, ltb→lt max_buffer (length events) over)),
      )
      | inr fits ↦ rw fits (
        omega (arith, h.0, size, next, ltb→le max_buffer (length events) fits),
        kept
            ∙ ap (λ n. drop n all)
                (omega (arith, size, next, ltb→le max_buffer (length events) fits)),
      )
    ]

append_all-IsLog :
    (max_buffer : ℕ) (run : Run) (old frames : List Frame)
    → IsLog max_buffer run old
    → IsLog max_buffer (append_all max_buffer run frames) (old ++ frames)
unfolding append_all
append_all-IsLog max_buffer run old [] h = rw append-nil h
append_all-IsLog max_buffer run old (f ∷ fs) h = rw (← append_assoc old (f ∷ []) fs) (
    append_all-IsLog max_buffer (append max_buffer run f) (old ++ (f ∷ [])) fs
      (append-IsLog max_buffer run old f h))

-- However its producer ends, the buffer of a driven run is the newest `max_buffer` of the frames
-- produced, a terminal frame included, each with its place in the whole sequence as its id.
pub drive-IsLog :
    (max_buffer : ℕ) (cancel_data : String) (error_data : Error → String) (task_id : String)
    (frames : List Frame) (ending : Ending)
    → IsLog max_buffer
        (drive max_buffer cancel_data error_data (new_run task_id) frames ending)
        (frames ++ terminal cancel_data error_data ending)
unfolding drive new_run IsLog
drive-IsLog max_buffer cancel_data error_data task_id frames ending =
    append_all-IsLog max_buffer (new_run task_id) []
      (frames ++ terminal cancel_data error_data ending) (omega arith, sym (drop-nil _))

-- A pass of `subscribe` at any index yields the frames appended from that index on, as far as the
-- buffer reaches back; moving the index up to the buffer's start changes nothing, and the next pass
-- goes on at the number of the frames appended.
pub poll-replays :
    (max_buffer : ℕ) (run : Run) (frames : List Frame) (idx : ℕ)
    → IsLog max_buffer run frames
    → (poll run idx ≡ drop (max idx (length frames - max_buffer)) (numbered 0 frames))
      × (poll run (first_index run idx) ≡ poll run idx)
      × (buffered_end run ≡ length frames)
unfolding poll first_index buffered_end IsLog
poll-replays max_buffer run frames idx h =
    let k = length frames - max_buffer in
    let all = numbered 0 frames in
    (
      ap (λ l. drop (idx - run.base_seq) l) h.1
          ∙ drop-drop _ k all
          ∙ ap (λ n. drop n all) (omega (arith, h.0)),
      ap (λ n. drop n run.events) (omega arith),
      log_length max_buffer run frames h,
    )

numbered-append_all :
    (n : ℕ) (xs ys : List Frame)
    → drop (length xs) (numbered n (xs ++ ys)) ≡ numbered (n + length xs) ys
numbered-append_all n [] ys = ap (λ k. numbered k ys) (omega arith)
numbered-append_all n (x ∷ xs) ys =
    numbered-append_all (suc n) xs ys ∙ ap (λ k. numbered k ys) (omega arith)

-- A subscriber that has read a run to its end and polls again after at most `max_buffer` further
-- frames gets these frames, with no gap and no repetition.
pub poll-next :
    (max_buffer : ℕ) (run : Run) (frames more : List Frame)
    → IsLog max_buffer run frames
    → length more ≤ max_buffer
    → poll (append_all max_buffer run more) (buffered_end run) ≡ numbered (length frames) more
poll-next max_buffer run frames more h few =
    let later = append_all-IsLog max_buffer run frames more h in
    let end = (poll-replays max_buffer run frames 0 h).2 in
    (poll-replays max_buffer (append_all max_buffer run more) (frames ++ more) (buffered_end run)
      later).0
    ∙ ap (λ n. drop n (numbered 0 (frames ++ more))) (omega (arith, end, length-append frames more))
    ∙ numbered-append_all 0 frames more
    ∙ ap (λ n. numbered n more) (zero-add (length frames))
