-- ===== src/NodeCore/Stream/Queue.antt =====
-- The shape of a stream's queue (`NodeStream` of termroom/node_core.py).
use termroom.Prelude.{
  ◌-◌, ◌≤◌, ◌<◌, Bool, true, false, ◌&&◌, none, some, List, [], ◌∷◌, ◌++◌, is_empty, length,
  if◌then◌else◌, ◌≡◌, ◌≢◌, inl, inr, refl, sym, subst, arith, Bool-cases,
}
use termroom.Prelude.Lists.{length-append}
use termroom.NodeCore.Json.{Members}
use termroom.NodeCore.Stream.{
  queue_depth, StreamError, stream_overflow, queue_full, Item, chunk, control, failure, stream_end,
  NodeStream, Fed, full, dropped, replace_queue_tail, feed_error, feed_end, feed_item,
}

abbrev pub is_data : Item → Bool
is_data (chunk _) = true
is_data (control _) = true
is_data (failure _) = false
is_data stream_end = false

-- only the last item can be the end or an error, and only in a stream that is closed
unfoldable pub shaped : Bool → List Item → Bool
shaped closed [] = true
shaped closed (i ∷ queue) = if is_data i then shaped closed queue else closed && is_empty queue

pub record IsOrderly (s : NodeStream) : Type 0 where
  pub bounded : length s.queue ≤ queue_depth
  pub shape : shaped s.closed s.queue ≡ true

shaped-append :
    (closed : Bool) (queue : List Item) (i : Item)
    → shaped false queue ≡ true
    → shaped closed (i ∷ []) ≡ true
    → shaped closed (queue ++ i ∷ []) ≡ true
unfolding shaped
shaped-append closed [] i h k = k
shaped-append closed (j ∷ queue) i h k = ground (arith, shaped-append closed queue i)

shaped_mono : (queue : List Item) → shaped false queue ≡ true → shaped true queue ≡ true
unfolding shaped
shaped_mono [] h = refl
shaped_mono (j ∷ queue) h = ground (arith, shaped_mono queue)

pub shaped-true :
    (closed : Bool) (queue : List Item) → shaped closed queue ≡ true → shaped true queue ≡ true
shaped-true true queue h = h
shaped-true false queue h = shaped_mono queue h

pub shaped-dropped :
    (closed : Bool) (queue : List Item)
    → shaped closed queue ≡ true
    → shaped closed (dropped queue) ≡ true
unfolding shaped
shaped-dropped closed [] h = refl
shaped-dropped closed (i ∷ []) h = refl
shaped-dropped closed (i ∷ j ∷ queue) h = ground arith

pub length-dropped : (queue : List Item) → length (dropped queue) ≡ length queue - 1
length-dropped [] = omega arith
length-dropped (i ∷ queue) = omega arith

-- the queue with room for one more
abbrev pub room : List Item → List Item
room queue = if full queue then dropped queue else queue

pub length-room :
    (queue : List Item) → length queue ≤ queue_depth → length (room queue) < queue_depth
length-room queue b = ground (arith, length-dropped queue)

pub shaped-room :
    (closed : Bool) (queue : List Item)
    → shaped closed queue ≡ true
    → shaped closed (room queue) ≡ true
shaped-room closed queue h = ground (arith, shaped-dropped closed queue)

-- the end or an error is put behind the data
pub replace-eq :
    (s : NodeStream) (i : Item)
    → length s.queue ≤ queue_depth
    → replace_queue_tail s i
      ≡ record { stream = record s { queue = room s.queue ++ i ∷ [] }; raised = none }
unfolding replace_queue_tail
replace-eq s i b = ground (arith, length-room s.queue b)

closes-IsOrderly :
    (s : NodeStream) (i : Item)
    → IsOrderly s
    → s.closed ≡ false
    → (result : Members) → shaped true (i ∷ []) ≡ true
    → IsOrderly (record { queue = room s.queue ++ i ∷ []; closed = true; result = result })
unfolding shaped
closes-IsOrderly s i v o result k = record {
  bounded = omega (arith, length-append (room s.queue) (i ∷ []), length-room s.queue v.bounded);
  shape =
      shaped-append true (room s.queue) i (shaped-room false s.queue (ground (arith, v.shape, o)))
        k;
}

pub feed_end-eq :
    (s : NodeStream) (result : Members)
    → IsOrderly s
    → s.closed ≡ false
    → feed_end s result ≡ record {
      stream = record s { queue = room s.queue ++ stream_end ∷ []; closed = true; result = result };
      raised = none;
    }
unfolding feed_end
feed_end-eq s result v o =
    ground (arith, o, replace-eq (record s { closed = true; result = result }) stream_end v.bounded)

pub feed_error-eq :
    (s : NodeStream) (e : StreamError)
    → IsOrderly s
    → s.closed ≡ false
    → feed_error s e ≡ record {
      stream = record s { queue = room s.queue ++ failure e ∷ []; closed = true };
      raised = none;
    }
unfolding feed_error
feed_error-eq s e v o =
    ground (arith, o, replace-eq (record s { closed = true }) (failure e) v.bounded)

end_shaped : shaped true (stream_end ∷ []) ≡ true
unfolding shaped
end_shaped = refl

failure_shaped : (e : StreamError) → shaped true (failure e ∷ []) ≡ true
unfolding shaped
failure_shaped e = refl

module _ (s : NodeStream) where
  pub feed_end-closed :
      (result : Members)
      → s.closed ≡ true
      → feed_end s result ≡ record { stream = s; raised = none }
  unfolding feed_end
  feed_end-closed result c = rw c refl

  pub feed_error-closed :
      (e : StreamError) → s.closed ≡ true → feed_error s e ≡ record { stream = s; raised = none }
  unfolding feed_error
  feed_error-closed e c = rw c refl

  pub feed_item-closed :
      (i : Item) → s.closed ≡ true → feed_item s i ≡ record { stream = s; raised = none }
  unfolding feed_item
  feed_item-closed i c = rw c refl

  pub feed_item-full :
      (i : Item)
      → s.closed ≡ false
      → full s.queue ≡ true
      → feed_item s i
        ≡ record { stream = (feed_error s stream_overflow).stream; raised = some stream_overflow }
  unfolding feed_item
  feed_item-full i o n = rw (o, n) refl

  pub feed_item-eq :
      (i : Item)
      → s.closed ≡ false
      → full s.queue ≡ false
      → feed_item s i ≡ record { stream = record s { queue = s.queue ++ i ∷ [] }; raised = none }
  unfolding feed_item
  feed_item-eq i o n = rw (o, n) refl

-- a stream is left valid, and the queue was not found full when the end was put into it
pub record IsFed (f : Fed) : Type 0 where
  pub left : IsOrderly f.stream
  pub fits : f.raised ≢ some queue_full

unchanged : (s : NodeStream) → IsOrderly s → IsFed (record { stream = s; raised = none })
unchanged s v = record { left = v; fits = λ e. cc }

pub feed_end-IsFed : (s : NodeStream) (result : Members) → IsOrderly s → IsFed (feed_end s result)
feed_end-IsFed s result v = elim (Bool-cases s.closed) [
  | inl c ↦ subst IsFed (sym (feed_end-closed s result c)) (unchanged s v)
  | inr o ↦
      subst IsFed (sym (feed_end-eq s result v o))
        (record { left = closes-IsOrderly s stream_end v o result end_shaped; fits = λ e. cc })
]

pub feed_error-IsFed : (s : NodeStream) (e : StreamError) → IsOrderly s → IsFed (feed_error s e)
feed_error-IsFed s e v = elim (Bool-cases s.closed) [
  | inl c ↦ subst IsFed (sym (feed_error-closed s e c)) (unchanged s v)
  | inr o ↦ subst IsFed (sym (feed_error-eq s e v o)) (record {
    left = closes-IsOrderly s (failure e) v o s.result (failure_shaped e);
    fits = λ k. cc;
  })
]

module _ (s : NodeStream) (i : Item) (v : IsOrderly s) where
  appended :
      s.closed ≡ false
      → full s.queue ≡ false
      → is_data i ≡ true
      → IsOrderly (record s { queue = s.queue ++ i ∷ [] })
  unfolding shaped
  appended o n d = record {
    bounded = ground (arith, n, length-append s.queue (i ∷ []));
    shape = shaped-append s.closed s.queue i (ground (arith, v.shape, o)) (ground (arith, d));
  }

  pub feed_item-IsFed : is_data i ≡ true → IsFed (feed_item s i)
  feed_item-IsFed d = elim (Bool-cases s.closed) [
    | inl c ↦ subst IsFed (sym (feed_item-closed s i c)) (unchanged s v)
    | inr o ↦ elim (Bool-cases (full s.queue)) [
      | inl n ↦
          subst IsFed (sym (feed_item-full s i o n))
            (record { left = (feed_error-IsFed s stream_overflow v).left; fits = λ k. cc })
      | inr n ↦
          subst IsFed (sym (feed_item-eq s i o n))
            (record { left = appended o n d; fits = λ k. cc })
    ]
  ]
