-- ===== src/NodeCore/Connection.antt =====
-- `NodeConnection` of termroom/node_core.py. The futures and streams are objects that a request or a
-- reader still holds when the connection has dropped them.
use termroom.Prelude.{
  ℕ, Bool, true, false, ◌&&◌, ◌||◌, not, Option, none, some, List, [], ◌∷◌, ◌++◌, Text, codes,
  contains, length, ltb, leb, ◌==◌, if◌then◌else◌,
}
use termroom.Prelude.Split.{any}
use termroom.Prelude.Lists.{drop}
use termroom.Prelude.Dict.{Dict, empty, put, TextSet, no_texts, add, discard}
use termroom.NodeCore.Json.{Json, Members, get, text_or}
use termroom.NodeCore.Stream.{StreamError, NodeStream, Fed, new_stream, receive_event, closed_here}

-- `asyncio.Future`, with the result or the code of the exception
pub data Future : Type 0 where
  waiting : Future
  resolved : Members → Future
  failed : Text → Future
  cancelled : Future

-- `futures` and `streams` are the objects by their identifier, `pending` and `registered` the keys of
-- `_pending` and `_streams`
pub record NodeConnection : Type 0 where
  pub futures : Dict Future
  pub pending : TextSet
  pub closed_requests : List Text
  pub streams : Dict NodeStream
  pub registered : TextSet
  pub closed_streams : List Text
  pub closed : Bool

-- what a handler raises
pub data NodeRaise : Type 0 where
  request_invalid stream_invalid stream_unknown stream_too_large : NodeRaise
  response_unknown response_invalid message_unexpected : NodeRaise
  stream_raises : StreamError → NodeRaise

pub record Handled : Type 0 where
  pub connection : NodeConnection
  pub raised : Option NodeRaise

abbrev pub done : NodeConnection → Handled
done c = record { connection = c; raised = none }

abbrev pub raising : NodeConnection → NodeRaise → Handled
raising c e = record { connection = c; raised = some e }

-- `NODE_CLOSED_REQUEST_TOMBSTONES` and `NODE_CLOSED_STREAM_TOMBSTONES`
abbrev pub tombstones : ℕ
tombstones = 256

-- `append` on a `deque` of that many
unfoldable pub remember : List Text → Text → List Text
remember deque id =
    let longer = deque ++ id ∷ [] in
    if ltb tombstones (length longer) then drop 1 longer else longer

-- `REQUEST_ID_PATTERN.fullmatch`
abbrev pub is_hex : ℕ → Bool
is_hex c = (leb b'a' c && leb c b'f') || (leb b'0' c && leb c b'9')

unfoldable pub is_request_id : Text → Bool
is_request_id id = length id == 32 && not (any (λ c. not (is_hex c)) id)

-- `NodeConnection.__init__`
abbrev pub new_connection : NodeConnection
new_connection = record {
  futures = empty;
  pending = no_texts;
  closed_requests = [];
  streams = empty;
  registered = no_texts;
  closed_streams = [];
  closed = false;
}

-- `request` before it waits
unfoldable pub begin_request : NodeConnection → Text → NodeConnection
begin_request c id = record c { futures = put c.futures id waiting; pending = add c.pending id }

-- a future that is not done
abbrev pub is_waiting : Option Future → Bool
is_waiting (some waiting) = true
is_waiting _ = false

-- `request` when it leaves, cancelled or not
unfoldable pub end_request : NodeConnection → Text → Bool → NodeConnection
unfolding remember
end_request c id is_cancelled = record c {
  closed_requests = if is_cancelled then remember c.closed_requests id else c.closed_requests;
  pending = discard c.pending id;
  futures = if is_waiting (c.futures id) then put c.futures id cancelled else c.futures;
}

-- `open_stream` before its request
unfoldable pub begin_stream : NodeConnection → Text → NodeConnection
begin_stream c id = record c {
  streams = put c.streams id new_stream;
  registered = add c.registered id;
}

-- `open_stream` when its request fails or names another stream
unfoldable pub forget_stream : NodeConnection → Text → NodeConnection
forget_stream c id = record c { registered = discard c.registered id }

unfoldable pub drop_stream : NodeConnection → Text → NodeConnection
unfolding remember
drop_stream c id =
    if c.registered id
    then record c {
      registered = discard c.registered id;
      closed_streams = remember c.closed_streams id;
    }
    else c

-- `NodeStream.close` and `abort`, apart from the message to the Node
unfoldable pub close_stream : NodeConnection → Text → NodeConnection
unfolding drop_stream closed_here
close_stream c id = elim (c.streams id) [
  | none ↦ c
  | some s ↦
      if s.closed
      then c
      else drop_stream (record c { streams = put c.streams id (closed_here s) }) id
]

-- `NodeStream.receive_event` of a reader
unfoldable pub receive : NodeConnection → Text → NodeConnection
unfolding receive_event
receive c id = elim (c.streams id) [
  | none ↦ c
  | some s ↦ elim (receive_event s) [
    | none ↦ c
    | some (e, t) ↦ record c { streams = put c.streams id t }
  ]
]

-- `_stream`: the identifier of a registered stream, nothing for a stream that was closed lately
pub data Found : Type 0 where
  found : Text → NodeStream → Found
  late : Found
  refuses : NodeRaise → Found

unfoldable pub stream_of : (Json → Text) → NodeConnection → Members → Found
unfolding is_request_id get contains
stream_of show c message =
    let id = text_or show (get message (codes "stream_id")) [] in
    if not (is_request_id id)
    then refuses request_invalid
    else elim (if c.registered id then c.streams id else none) [
      | some s ↦ found id s
      | none ↦ if contains c.closed_streams id then late else refuses stream_unknown
    ]

-- a stream object after it was fed
abbrev pub fed : NodeConnection → Text → Fed → Handled
fed c id f = record {
  connection = record c { streams = put c.streams id f.stream };
  raised = elim f.raised [ none ↦ none | some e ↦ some (stream_raises e) ];
}
