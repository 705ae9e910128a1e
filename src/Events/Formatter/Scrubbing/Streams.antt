-- ===== src/Events/Formatter/Scrubbing/Streams.antt =====
-- agent_room/events.py: one task's texts over a whole stream.
use goal_driven_agent_room.Base.{
  ◌≡◌, refl, sym, ap, ◌∙◌, inl, inr, String, List, [], ◌∷◌, ◌++◌, blank, Bool-cases,
}
use goal_driven_agent_room.Schemas.{Content}
use goal_driven_agent_room.Events.{RawEvent, format_stream_event}
use goal_driven_agent_room.Events.Formatter.{
  Scrubber, Formatter, scrubber_of, pass, format, format_all,
}
use goal_driven_agent_room.Events.Formatter.Scrubbing.{
  pieces_in, unscrubbed, kept, feed_all, own_of, pass-Agrees, pieces_in-cons_if,
}

module _ (scrubber : Scrubber) where
  open scrubber use {State, feed}

  kept-append :
      (p : String) (xs ys : List String) → kept scrubber p xs ++ ys ≡ kept scrubber p (xs ++ ys)
  kept-append p xs ys = elim (Bool-cases (blank p)) [ inl e ↦ rw e | inr e ↦ rw e ]

  feed_all-append :
      (s : State) (xs ys : List String)
      → let first = feed_all scrubber s xs in
        let rest = feed_all scrubber (first.1) ys in
        feed_all scrubber s (xs ++ ys) ≡ (first.0 ++ rest.0, rest.1)
  feed_all-append s [] ys = refl
  feed_all-append s (x ∷ xs) ys =
      let fed = feed s x in
      let inner = feed_all-append (fed.1) xs ys in
      ap (λ p. (kept scrubber (fed.0) (p.0), p.1)) inner
      ∙ ap (λ l. (l, (feed_all scrubber ((feed_all scrubber (fed.1) xs).1) ys).1))
          (sym (kept-append (fed.0) _ _))

  -- In a stream of events of any tasks, the texts that are shown for one task, and the scrubber
  -- that is kept for it, are those of one scrubber that is fed this task's texts alone, in their
  -- order.
  pub format_all-scrubs :
      (show_content : Content → String) (key : String) (events : List RawEvent)
      (f : Formatter scrubber)
      → let after = format_all scrubber show_content events f in
        let alone =
          feed_all scrubber
            (scrubber_of scrubber key f)
            (pieces_in key (unscrubbed show_content events)) in
        (pieces_in key (after.0) ≡ alone.0) × (scrubber_of scrubber key (after.1) ≡ alone.1)
  unfolding format_all format pieces_in
  format_all-scrubs show_content key [] f = (refl, refl)
  format_all-scrubs show_content key (e ∷ es) f =
      let o = format_stream_event show_content e in
      let one = pass scrubber o f in
      let (state, shown) = pass-Agrees scrubber key o f in
      let (texts, last) = format_all-scrubs show_content key es (one.1) in
      let split =
        ap (feed_all scrubber (scrubber_of scrubber key f))
          (pieces_in-cons_if scrubber key o (unscrubbed show_content es))
        ∙ feed_all-append (scrubber_of scrubber key f) (own_of scrubber key o)
            (pieces_in key (unscrubbed show_content es)) in
      let joined =
        shown ((format_all scrubber show_content es (one.1)).0)
        ∙ ap (λ l. (feed_all scrubber (scrubber_of scrubber key f) (own_of scrubber key o)).0 ++ l)
            (texts
              ∙ ap (λ t. (feed_all scrubber t (pieces_in key (unscrubbed show_content es))).0)
                  state) in
      (
        joined ∙ ap (λ p. p.0) (sym split),
        last
            ∙ ap (λ t. (feed_all scrubber t (pieces_in key (unscrubbed show_content es))).1) state
            ∙ ap (λ p. p.1) (sym split),
      )
