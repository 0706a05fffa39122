-- ===== src/NodeCore/Stream/Reader.antt =====
-- What `receive_event` of a `NodeStream` returns to a reader (termroom/node_core.py).
use termroom.Prelude.{
  ℕ, zero, suc, ◌≤◌, ◌<◌, Bool, true, false, none, some, List, [], ◌∷◌, ◌++◌, map, length, leb,
  if◌then◌else◌, ◌≡◌, refl, sym, ap, arith, ◌∙◌,
}
use termroom.Prelude.Lists.{drop}
use termroom.NodeCore.Json.{Members}
use termroom.NodeCore.Stream.{
  Item, chunk, control, failure, stream_end, NodeStream, new_stream, dropped, feed_end, Event,
  received, ended, event_of, receive_event, Act, feeds_data, feeds_control, feeds_end, feeds_error,
  receives, closes, apply, run,
}
use termroom.NodeCore.Stream.Queue.{
  is_data, shaped, IsOrderly, room, shaped-room, length-room, feed_end-eq,
}
use termroom.NodeCore.Stream.Delivery.{
  run-IsOrderly_from, new-IsOrderly, apply-IsOrderly, sent, taken, all_taken, open_before,
  taken_from,
}

-- what `receive_event` returns, where an act calls it and there is an item
abbrev pub answered : Act → NodeStream → List Event
answered receives s = elim (receive_event s) [ none ↦ [] | some (e, t) ↦ e ∷ [] ]
answered _ s = []

-- what it returned during the acts
unfoldable pub got : List Act → NodeStream → List Event
unfolding receive_event
got [] s = []
got (a ∷ acts) s = answered a s ++ got acts (apply a s)

-- `receive_event`, called again and again, at most so many times, until it would wait
unfoldable pub read_on : ℕ → NodeStream → List Event
unfolding receive_event
read_on zero s = []
read_on (suc n) s = elim (receive_event s) [ none ↦ [] | some (e, t) ↦ e ∷ read_on n t ]

event_of-data : (i : Item) → is_data i ≡ true → event_of i ≡ received i
event_of-data (chunk bytes) d = refl
event_of-data (control values) d = refl
event_of-data (failure e) d = cc
event_of-data stream_end d = cc

shaped-head :
    (i : Item) (queue : List Item)
    → shaped false (i ∷ queue) ≡ true
    → (is_data i ≡ true) × (shaped false queue ≡ true)
unfolding shaped
shaped-head i queue h = (ground (arith, h), ground (arith, h))

head-received :
    (queue : List Item) (closed : Bool) (result : Members)
    → shaped false queue ≡ true
    → answered receives (record { queue = queue; closed = closed; result = result })
      ≡ map received (taken receives queue)
unfolding receive_event
head-received [] closed result h = refl
head-received (i ∷ queue) closed result h =
    ap (λ e. e ∷ []) (event_of-data i (shaped-head i queue h).0)

answered-taken :
    (a : Act) (s : NodeStream)
    → shaped false s.queue ≡ true
    → answered a s ≡ map received (taken a s.queue)
answered-taken (feeds_data bytes) s h = refl
answered-taken (feeds_control values) s h = refl
answered-taken (feeds_end result) s h = refl
answered-taken (feeds_error e) s h = refl
answered-taken receives s h = head-received s.queue s.closed s.result h
answered-taken closes s h = refl

map-append : (xs ys : List Item) → map received (xs ++ ys) ≡ map received xs ++ map received ys
map-append [] ys = refl
map-append (x ∷ xs) ys = ap (λ es. received x ∷ es) (map-append xs ys)

shaped-open : (s : NodeStream) → IsOrderly s → s.closed ≡ false → shaped false s.queue ≡ true
shaped-open s v o = ap (λ c. shaped c s.queue) (sym o) ∙ v.shape

got-taken :
    (acts : List Act) (s : NodeStream)
    → IsOrderly s
    → (run acts s).closed ≡ false
    → got acts s ≡ map received (all_taken acts s)
unfolding got all_taken run
got-taken [] s v p = refl
got-taken (a ∷ acts) s v p =
    let b = open_before a acts s p in
    ap (λ es. es ++ got acts (apply a s)) (answered-taken a s (shaped-open s v b.0))
    ∙ ap (λ es. map received (taken a s.queue) ++ es)
        (got-taken acts (apply a s) (apply-IsOrderly a s v) p)
    ∙ sym (map-append (taken a s.queue) (all_taken acts (apply a s)))

-- Nothing is lost and nothing changes places while a stream is open: what `receive_event` returned
-- during any acts, followed by what is still queued, is all that was fed, in its order.
pub fifo :
    (acts : List Act)
    → (run acts new_stream).closed ≡ false
    → got acts new_stream ++ map received (run acts new_stream).queue ≡ map received (sent acts)
fifo acts o =
    let queue = (run acts new_stream).queue in
    ap (λ es. es ++ map received queue) (got-taken acts new_stream new-IsOrderly o)
    ∙ sym (map-append (all_taken acts new_stream) queue)
    ∙ ap (map received) (taken_from acts new_stream new-IsOrderly o)

read_on-ended :
    (queue : List Item) (closed : Bool) (result : Members) (n : ℕ)
    → shaped false queue ≡ true
    → length queue < n
    → read_on n (record { queue = queue ++ stream_end ∷ []; closed = closed; result = result })
      ≡ map received queue ++ ended ∷ []
unfolding read_on receive_event
read_on-ended [] closed result zero h l = absurd (omega arith)
read_on-ended [] closed result (suc zero) h l = refl
read_on-ended [] closed result (suc (suc n)) h l = refl
read_on-ended (i ∷ queue) closed result zero h l = absurd (omega arith)
read_on-ended (i ∷ queue) closed result (suc n) h l =
    let t = shaped-head i queue h in
    ap
      (λ e.
        e
        ∷ read_on n (record { queue = queue ++ stream_end ∷ []; closed = closed; result = result }))
      (event_of-data i t.0)
    ∙ ap (λ es. received i ∷ es) (read_on-ended queue closed result n t.1 (omega (arith, l)))

dropped-eq : (queue : List Item) → dropped queue ≡ drop 1 queue
unfolding drop
dropped-eq [] = refl
dropped-eq (i ∷ queue) = refl

-- When the Node ends an open stream, a reader that calls `receive_event` on, at least 32 times, gets
-- what is queued and then the end, and nothing after it; but if 32 items are queued it does not get
-- the oldest of them, and the stream ends all the same.
pub read-feed_end :
    (acts : List Act) (result : Members) (n : ℕ)
    → (run acts new_stream).closed ≡ false
    → 32 ≤ n
    → read_on n (feed_end (run acts new_stream) result).stream
      ≡ map received (
          if leb 32 (length (run acts new_stream).queue)
          then drop 1 (run acts new_stream).queue
          else (run acts new_stream).queue)
        ++ ended ∷ []
read-feed_end acts result n o l =
    let s = run acts new_stream in
    let v = run-IsOrderly_from acts new_stream new-IsOrderly in
    ap (λ f. read_on n f.stream) (feed_end-eq s result v o)
    ∙ read_on-ended (room s.queue) true result n (shaped-room false s.queue (shaped-open s v o))
        (omega (arith, length-room s.queue v.bounded, l))
    ∙ ap (λ q. map received (if leb 32 (length s.queue) then q else s.queue) ++ ended ∷ [])
        (dropped-eq s.queue)
