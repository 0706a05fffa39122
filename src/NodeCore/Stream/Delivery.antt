-- ===== src/NodeCore/Stream/Delivery.antt =====
-- The queue of a `NodeStream` over any sequence of acts (termroom/node_core.py).
use termroom.Prelude.{
  true, false, some, List, [], ◌∷◌, ◌++◌, append_assoc, append-nil, is_empty, ◌≡◌, ◌≢◌, inl, inr,
  refl, sym, ap, subst, arith, Bool-cases, true_not_false, ◌∙◌,
}
use termroom.NodeCore.Json.{Members}
use termroom.NodeCore.Stream.{
  StreamError, stream_overflow, queue_full, Item, chunk, control, NodeStream, new_stream, full,
  dropped, feed_error, feed_end, feed_item, receive_event, closed_here, Act, feeds_data,
  feeds_control, feeds_end, feeds_error, receives, closes, apply, run,
}
use termroom.NodeCore.Stream.Queue.{
  shaped, shaped-true, shaped-dropped, IsOrderly, length-dropped, feed_end-eq, feed_error-eq,
  feed_end-closed, feed_error-closed, feed_item-closed, feed_item-full, feed_item-eq,
  feed_end-IsFed, feed_error-IsFed, feed_item-IsFed,
}

-- the queue after a reader took its first item
received_from : (s : NodeStream) → apply receives s ≡ record s { queue = dropped s.queue }
unfolding apply receive_event
received_from s = elim (Bool-cases (is_empty s.queue)) [
  | inl e ↦ ground (arith, e)
  | inr n ↦ ground (arith, n)
]

dropped-IsOrderly :
    (s : NodeStream) → IsOrderly s → IsOrderly (record s { queue = dropped s.queue })
dropped-IsOrderly s v = record {
  bounded = omega (arith, v.bounded, length-dropped s.queue);
  shape = shaped-dropped s.closed s.queue v.shape;
}

closed_here-IsOrderly : (s : NodeStream) → IsOrderly s → IsOrderly (closed_here s)
unfolding closed_here
closed_here-IsOrderly s v = record {
  bounded = v.bounded;
  shape = shaped-true s.closed s.queue v.shape;
}

pub apply-IsOrderly : (a : Act) (s : NodeStream) → IsOrderly s → IsOrderly (apply a s)
unfolding apply
apply-IsOrderly (feeds_data bytes) s v = (feed_item-IsFed s (chunk bytes) v refl).left
apply-IsOrderly (feeds_control values) s v = (feed_item-IsFed s (control values) v refl).left
apply-IsOrderly (feeds_end result) s v = (feed_end-IsFed s result v).left
apply-IsOrderly (feeds_error e) s v = (feed_error-IsFed s e v).left
apply-IsOrderly receives s v = subst IsOrderly (sym (received_from s)) (dropped-IsOrderly s v)
apply-IsOrderly closes s v = closed_here-IsOrderly s v

pub run-IsOrderly_from : (acts : List Act) (s : NodeStream) → IsOrderly s → IsOrderly (run acts s)
unfolding run
run-IsOrderly_from [] s v = v
run-IsOrderly_from (a ∷ acts) s v = run-IsOrderly_from acts (apply a s) (apply-IsOrderly a s v)

pub new-IsOrderly : IsOrderly new_stream
unfolding shaped
new-IsOrderly = record { bounded = omega arith; shape = refl }

-- After any sequence of feeds, reads and closings, the queue of a stream holds at most 32 items, and
-- the end or an error stands only at its last place, in a stream that is closed. Putting the end or an
-- error into it then never finds the queue full.
pub run-IsOrderly :
    (acts : List Act) (result : Members) (e : StreamError)
    → IsOrderly (run acts new_stream)
      × ((feed_end (run acts new_stream) result).raised ≢ some queue_full)
      × ((feed_error (run acts new_stream) e).raised ≢ some queue_full)
run-IsOrderly acts result e =
    let v = run-IsOrderly_from acts new_stream new-IsOrderly in
    (
      v,
      (feed_end-IsFed (run acts new_stream) result v).fits,
      (feed_error-IsFed (run acts new_stream) e v).fits,
    )

-- the items that were fed
unfoldable pub sent : List Act → List Item
sent [] = []
sent (feeds_data bytes ∷ acts) = chunk bytes ∷ sent acts
sent (feeds_control values ∷ acts) = control values ∷ sent acts
sent (_ ∷ acts) = sent acts

-- the head of the queue, where an act takes it
abbrev pub taken : Act → List Item → List Item
taken receives (i ∷ _) = i ∷ []
taken _ _ = []

-- the items that were taken
unfoldable pub all_taken : List Act → NodeStream → List Item
all_taken [] s = []
all_taken (a ∷ acts) s = taken a s.queue ++ all_taken acts (apply a s)

apply_closed : (a : Act) (s : NodeStream) → s.closed ≡ true → (apply a s).closed ≡ true
unfolding apply closed_here
apply_closed (feeds_data bytes) s c =
    ap (λ f. f.stream.closed) (feed_item-closed s (chunk bytes) c) ∙ c
apply_closed (feeds_control values) s c =
    ap (λ f. f.stream.closed) (feed_item-closed s (control values) c) ∙ c
apply_closed (feeds_end result) s c = ap (λ f. f.stream.closed) (feed_end-closed s result c) ∙ c
apply_closed (feeds_error e) s c = ap (λ f. f.stream.closed) (feed_error-closed s e c) ∙ c
apply_closed receives s c = ap (λ t. t.closed) (received_from s) ∙ c
apply_closed closes s c = refl

run_closed : (acts : List Act) (s : NodeStream) → s.closed ≡ true → (run acts s).closed ≡ true
unfolding run
run_closed [] s c = c
run_closed (a ∷ acts) s c = run_closed acts (apply a s) (apply_closed a s c)

sent-cons : (a : Act) (acts : List Act) → sent (a ∷ []) ++ sent acts ≡ sent (a ∷ acts)
unfolding sent
sent-cons (feeds_data bytes) acts = refl
sent-cons (feeds_control values) acts = refl
sent-cons (feeds_end result) acts = refl
sent-cons (feeds_error e) acts = refl
sent-cons receives acts = refl
sent-cons closes acts = refl

taken-dropped : (queue : List Item) → taken receives queue ++ dropped queue ≡ queue ++ []
taken-dropped [] = refl
taken-dropped (i ∷ queue) = sym (append-nil (i ∷ queue))

module _ (s : NodeStream) (v : IsOrderly s) (o : s.closed ≡ false) where
  feed_open :
      (i : Item)
      → (feed_item s i).stream.closed ≡ false
      → (feed_item s i).stream.queue ≡ s.queue ++ i ∷ []
  feed_open i p = elim (Bool-cases (full s.queue)) [
    | inl n ↦ absurd (
        true_not_false (
          sym (
            ap (λ f. f.stream.closed) (feed_item-full s i o n)
            ∙ ap (λ f. f.stream.closed) (feed_error-eq s stream_overflow v o))
          ∙ p))
    | inr n ↦ ap (λ f. f.stream.queue) (feed_item-eq s i o n)
  ]

  -- one act on a stream that stays open
  apply_open :
      (a : Act)
      → (apply a s).closed ≡ false
      → taken a s.queue ++ (apply a s).queue ≡ s.queue ++ sent (a ∷ [])
  unfolding apply sent closed_here
  apply_open (feeds_data bytes) p = feed_open (chunk bytes) p
  apply_open (feeds_control values) p = feed_open (control values) p
  apply_open (feeds_end result) p =
      absurd (true_not_false (sym (ap (λ f. f.stream.closed) (feed_end-eq s result v o)) ∙ p))
  apply_open (feeds_error e) p =
      absurd (true_not_false (sym (ap (λ f. f.stream.closed) (feed_error-eq s e v o)) ∙ p))
  apply_open receives p =
      ap (λ t. taken receives s.queue ++ t.queue) (received_from s) ∙ taken-dropped s.queue
  apply_open closes p = absurd (true_not_false p)

pub open_before :
    (a : Act) (acts : List Act) (s : NodeStream)
    → (run (a ∷ acts) s).closed ≡ false
    → (s.closed ≡ false) × ((apply a s).closed ≡ false)
unfolding run
open_before a acts s p = (
  ground (arith, p, run_closed acts (apply a s), apply_closed a s),
  ground (arith, p, run_closed acts (apply a s)),
)

pub taken_from :
    (acts : List Act) (s : NodeStream)
    → IsOrderly s
    → (run acts s).closed ≡ false
    → all_taken acts s ++ (run acts s).queue ≡ s.queue ++ sent acts
unfolding all_taken run sent
taken_from [] s v p = sym (append-nil s.queue)
taken_from (a ∷ acts) s v p =
    let b = open_before a acts s p in
    append_assoc (taken a s.queue) (all_taken acts (apply a s)) (run acts (apply a s)).queue
    ∙ ap (λ q. taken a s.queue ++ q) (taken_from acts (apply a s) (apply-IsOrderly a s v) p)
    ∙ sym (append_assoc (taken a s.queue) (apply a s).queue (sent acts))
    ∙ ap (λ q. q ++ sent acts) (apply_open s v b.0 a b.1)
    ∙ append_assoc s.queue (sent (a ∷ [])) (sent acts)
    ∙ ap (λ q. s.queue ++ q) (sent-cons a acts)
