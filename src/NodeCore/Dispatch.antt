-- ===== src/NodeCore/Dispatch.antt =====
-- `dispatch` and `close` of `NodeConnection` (termroom/node_core.py), and the histories of a connection.
pub mod Frame
pub mod Settled
pub mod Late
use termroom.Prelude.{
  ℕ, suc, Bool, true, false, ◌&&◌, not, Option, none, some, List, [], ◌∷◌, Text, codes, contains,
  length, ltb, if◌then◌else◌,
}
use termroom.Prelude.Result.{ok, ◌>>=◌, ◌>>◌}
use termroom.Prelude.Lists.{take}
use termroom.Prelude.Dict.{put, no_texts}
use termroom.NodeCore.Json.{
  Json, null, boolean, integer, text, object, Members, no_members, member, get, text_or, is_literal,
}
use termroom.NodeCore.Stream.{
  node_error, control, NodeStream, Fed, feed_error, feed_end, feed_item, feed_data, feed_control,
}
use termroom.NodeCore.Connection.{
  Future, waiting, resolved, failed, NodeConnection, request_invalid, stream_invalid,
  stream_too_large, response_unknown, response_invalid, message_unexpected, Handled, done, raising,
  is_request_id, begin_request, is_waiting, end_request, begin_stream, forget_stream, drop_stream,
  close_stream, receive, found, late, refuses, stream_of, fed,
}

-- the member `result`, `{}` if it is missing; nothing if it is not a `dict`
abbrev pub result_of : Option Json → Option Members
result_of none = some no_members
result_of (some (object members)) = some members
result_of (some _) = none

-- `settle` writes a future's outcome
abbrev pub settle : NodeConnection → Text → Future → NodeConnection
settle c id f = record c { futures = put c.futures id f }

abbrev pub is_true : Option Json → Bool
is_true (some (boolean b)) = b
is_true _ = false

-- `_dispatch_response`
unfoldable pub dispatch_response : (Json → Text) → NodeConnection → Members → Handled
unfolding is_request_id get contains take
dispatch_response show c message =
    let id = text_or show (get message (codes "id")) [] in
    if not (is_request_id id)
    then raising c request_invalid
    else if not (c.pending id && is_waiting (c.futures id))
    then (if contains c.closed_requests id then done c else raising c response_unknown)
    else if is_true (get message (codes "ok"))
    then elim (result_of (get message (codes "result"))) [
      | some result ↦ done (settle c id (resolved result))
      | none ↦ raising c response_invalid
    ]
    else done (
        settle c id
          (failed (take 80 (text_or show (get message (codes "code")) (codes "request_failed")))))

-- `MAX_NODE_STREAM_CHUNK_BYTES`
abbrev pub max_chunk : ℕ
max_chunk = 65536

abbrev pub text_of : Option Json → Option Text
text_of (some (text t)) = some t
text_of _ = none

-- `_dispatch_stream_data`; `decode` gives the bytes of valid Base64 text
unfoldable pub dispatch_stream_data :
    (Json → Text) → (Text → Option (List ℕ)) → NodeConnection → Members → Handled
unfolding stream_of get feed_item
dispatch_stream_data show decode c message = elim (stream_of show c message) [
  | refuses e ↦ raising c e
  | late ↦ done c
  | found id s ↦ elim (text_of (get message (codes "data"))) [
    | none ↦ raising c stream_invalid
    | some value ↦ elim (decode value) [
      | none ↦ raising c stream_invalid
      | some bytes ↦
          if ltb max_chunk (length bytes)
          then raising c stream_too_large
          else fed c id (feed_data s bytes)
    ]
  ]
]

-- a `revision` of at least 1, and what `_dispatch_stream_control` makes of the message
abbrev pub revision_of : Option Json → Option ℕ
revision_of (some (integer false (suc n))) = some (suc n)
revision_of _ = none

abbrev pub pane_mode : ℕ → Bool → Members → Members
pane_mode revision available rest = member (codes "kind") (text (codes "pane_mode")) (
    member (codes "revision") (integer false revision)
      (member (codes "available") (boolean available) rest))

abbrev pub control_of : Option ℕ → (available mode : Option Json) → Option Members
control_of (some revision) (some (boolean true)) (some (object mode)) =
    some (pane_mode revision true (member (codes "mode") (object mode) no_members))
control_of (some revision) (some (boolean false)) none = some (pane_mode revision false no_members)
control_of (some revision) (some (boolean false)) (some null) =
    some (pane_mode revision false no_members)
control_of _ _ _ = none

-- `_dispatch_stream_control`
unfoldable pub dispatch_stream_control : (Json → Text) → NodeConnection → Members → Handled
unfolding stream_of get feed_item
dispatch_stream_control show c message = elim (stream_of show c message) [
  | refuses e ↦ raising c e
  | late ↦ done c
  | found id s ↦
      elim (if is_literal (get message (codes "kind")) (codes "pane_mode")
        then control_of (revision_of (get message (codes "revision")))
            (get message (codes "available")) (get message (codes "mode"))
        else none) [
          | none ↦ raising c stream_invalid
          | some values ↦ fed c id (feed_control s values)
        ]
]

-- a stream is fed its last item, and dropped unless that raises
abbrev pub finish : NodeConnection → Text → Fed → Handled
finish c id f = elim f.raised [
  | none ↦ done (drop_stream (record c { streams = put c.streams id f.stream }) id)
  | some e ↦ fed c id f
]

-- the messages `stream.close` and `stream.error`
unfoldable pub dispatch_stream_close : (Json → Text) → NodeConnection → Members → Handled
unfolding stream_of get feed_end drop_stream
dispatch_stream_close show c message = elim (stream_of show c message) [
  | refuses e ↦ raising c e
  | late ↦ done c
  | found id s ↦ elim (result_of (get message (codes "result"))) [
    | none ↦ raising c stream_invalid
    | some result ↦ finish c id (feed_end s result)
  ]
]

unfoldable pub dispatch_stream_error : (Json → Text) → NodeConnection → Members → Handled
unfolding stream_of get feed_error drop_stream take
dispatch_stream_error show c message = elim (stream_of show c message) [
  | refuses e ↦ raising c e
  | late ↦ done c
  | found id s ↦ finish c id (
      feed_error s
        (node_error (take 80 (text_or show (get message (codes "code")) (codes "stream_failed")))))
]

unfoldable pub dispatch :
    (Json → Text) → (Text → Option (List ℕ)) → NodeConnection → Members → Handled
unfolding get dispatch_response dispatch_stream_data dispatch_stream_control dispatch_stream_close
    dispatch_stream_error
dispatch show decode c message =
    let kind = get message (codes "type") in
    if is_literal kind (codes "response")
    then dispatch_response show c message
    else if is_literal kind (codes "stream.data")
    then dispatch_stream_data show decode c message
    else if is_literal kind (codes "stream.control")
    then dispatch_stream_control show c message
    else if is_literal kind (codes "stream.close")
    then dispatch_stream_close show c message
    else if is_literal kind (codes "stream.error")
    then dispatch_stream_error show c message
    else raising c message_unexpected

-- what `close` does to a pending future and to a registered stream
abbrev pub fail_future : Option Future → Option Future
fail_future (some waiting) = some (failed (codes "node_offline"))
fail_future other = other

abbrev pub fail_stream : Option NodeStream → Option NodeStream
fail_stream none = none
fail_stream (some s) = some (feed_error s (node_error (codes "node_offline"))).stream

unfoldable pub close : NodeConnection → NodeConnection
unfolding feed_error
close c = if c.closed then c else record c {
  closed = true;
  futures = λ id. if c.pending id then fail_future (c.futures id) else c.futures id;
  streams = λ id. if c.registered id then fail_stream (c.streams id) else c.streams id;
  pending = no_texts;
  registered = no_texts;
}

-- what can happen to a connection
pub data NodeEvent : Type 0 where
  begins_request begins_stream forgets_stream closes_stream receives_from : Text → NodeEvent
  ends_request : Text → (is_cancelled : Bool) → NodeEvent
  dispatches : Members → NodeEvent
  disconnects : NodeEvent

unfoldable pub step :
    (Json → Text) → (Text → Option (List ℕ)) → NodeEvent → NodeConnection → NodeConnection
unfolding begin_request begin_stream forget_stream close_stream receive end_request dispatch close
step show decode (begins_request id) c = begin_request c id
step show decode (begins_stream id) c = begin_stream c id
step show decode (forgets_stream id) c = forget_stream c id
step show decode (closes_stream id) c = close_stream c id
step show decode (receives_from id) c = receive c id
step show decode (ends_request id is_cancelled) c = end_request c id is_cancelled
step show decode (dispatches message) c = (dispatch show decode c message).connection
step show decode disconnects c = close c

unfoldable pub history :
    (Json → Text) → (Text → Option (List ℕ)) → List NodeEvent → NodeConnection → NodeConnection
unfolding step
history show decode [] c = c
history show decode (e ∷ events) c = history show decode events (step show decode e c)
