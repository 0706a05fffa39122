-- ===== src/NodeCore/Stream.antt =====
-- `NodeStream` of termroom/node_core.py: the queue between the connection and the reader.
pub mod Queue
pub mod Delivery
pub mod Reader
use termroom.Prelude.{
  ℕ, ◌+◌, Bool, true, false, Option, none, some, List, [], ◌∷◌, ◌++◌, Text, length, leb,
  if◌then◌else◌,
}
use termroom.NodeCore.Json.{Members, no_members}

-- `NODE_STREAM_QUEUE_DEPTH`
abbrev pub queue_depth : ℕ
queue_depth = 32

-- the codes of the errors that end a stream, and of those that feeding raises
pub data StreamError : Type 0 where
  stream_overflow queue_full : StreamError
  node_error : Text → StreamError

-- what the queue holds; `stream_end` is `_STREAM_END`
pub data Item : Type 0 where
  chunk : List ℕ → Item
  control : Members → Item
  failure : StreamError → Item
  stream_end : Item

pub record NodeStream : Type 0 where
  pub queue : List Item
  pub closed : Bool
  pub result : Members

-- a method leaves a stream, and may raise
pub record Fed : Type 0 where
  pub stream : NodeStream
  pub raised : Option StreamError

-- `NodeStream.__init__`
abbrev pub new_stream : NodeStream
new_stream = record { queue = []; closed = false; result = no_members }

-- `asyncio.Queue.full`
abbrev pub full : List Item → Bool
full queue = leb queue_depth (length queue)

-- `asyncio.Queue.get_nowait`, with `QueueEmpty` suppressed
abbrev pub dropped : List Item → List Item
dropped [] = []
dropped (_ ∷ queue) = queue

-- `_replace_queue_tail`
unfoldable pub replace_queue_tail : NodeStream → Item → Fed
replace_queue_tail s i =
    let queue = if full s.queue then dropped s.queue else s.queue in
    if full queue
    then record { stream = record s { queue = queue }; raised = some queue_full }
    else record { stream = record s { queue = queue ++ i ∷ [] }; raised = none }

unfoldable pub feed_error : NodeStream → StreamError → Fed
unfolding replace_queue_tail
feed_error s error =
    if s.closed
    then record { stream = s; raised = none }
    else replace_queue_tail (record s { closed = true }) (failure error)

unfoldable pub feed_end : NodeStream → Members → Fed
unfolding replace_queue_tail
feed_end s result =
    if s.closed
    then record { stream = s; raised = none }
    else replace_queue_tail (record s { closed = true; result = result }) stream_end

-- `feed_data` and `feed_control`, which differ in the item only
unfoldable pub feed_item : NodeStream → Item → Fed
unfolding feed_error
feed_item s i =
    if s.closed
    then record { stream = s; raised = none }
    else if full s.queue
    then record { stream = (feed_error s stream_overflow).stream; raised = some stream_overflow }
    else record { stream = record s { queue = s.queue ++ i ∷ [] }; raised = none }

abbrev pub feed_data : NodeStream → List ℕ → Fed
feed_data s bytes = feed_item s (chunk bytes)

abbrev pub feed_control : NodeStream → Members → Fed
feed_control s values = feed_item s (control values)

-- the flag that `close` and `abort` set before they tell the Node
unfoldable pub closed_here : NodeStream → NodeStream
closed_here s = record s { closed = true }

-- what `receive_event` does with the next item
pub data Event : Type 0 where
  received : Item → Event
  ended : Event
  raises : StreamError → Event

abbrev pub event_of : Item → Event
event_of (chunk bytes) = received (chunk bytes)
event_of (control values) = received (control values)
event_of (failure error) = raises error
event_of stream_end = ended

-- `receive_event`, which waits while there is nothing
unfoldable pub receive_event : NodeStream → Option (Event × NodeStream)
receive_event s = elim s.queue [
  | [] ↦ none
  | i ∷ queue ↦ some (event_of i, record s { queue = queue })
]

-- what can happen to a stream
pub data Act : Type 0 where
  feeds_data : List ℕ → Act
  feeds_control : Members → Act
  feeds_end : Members → Act
  feeds_error : StreamError → Act
  receives closes : Act

unfoldable pub apply : Act → NodeStream → NodeStream
unfolding feed_item feed_end feed_error receive_event closed_here
apply (feeds_data bytes) s = (feed_data s bytes).stream
apply (feeds_control values) s = (feed_control s values).stream
apply (feeds_end result) s = (feed_end s result).stream
apply (feeds_error error) s = (feed_error s error).stream
apply receives s = elim (receive_event s) [ none ↦ s | some (e, t) ↦ t ]
apply closes s = closed_here s

unfoldable pub run : List Act → NodeStream → NodeStream
unfolding apply
run [] s = s
run (a ∷ acts) s = run acts (apply a s)
