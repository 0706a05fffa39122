-- ===== src/NodeCore/Examples.antt =====
-- A stream that is read while it is fed, and one that ends with a full queue (termroom/node_core.py).
use termroom.Prelude.{
  ℕ, zero, suc, true, false, ◌&&◌, Option, some, List, [], ◌∷◌, ◌++◌, map, Text, codes, text_eq,
  is_some, ◌≡◌, ◌≢◌, refl, arith,
}
use termroom.Prelude.Split.{any}
use termroom.NodeCore.Json.{Json, boolean, text, Members, no_members, member, get, text_or}
use termroom.NodeCore.Json.{Members, no_members}
use termroom.NodeCore.Stream.{
  stream_overflow, queue_full, new_stream, full, feed_error, feed_end, feed_item, received, ended,
  receive_event, Act, feeds_data, feeds_control, receives, apply, run,
}
use termroom.NodeCore.Connection.{
  NodeConnection, is_request_id, new_connection, begin_request, is_waiting, begin_stream,
}
use termroom.NodeCore.Dispatch.{
  dispatch_response, dispatch, close, NodeEvent, begins_request, begins_stream, ends_request,
  dispatches, disconnects, step, history,
}
use termroom.NodeCore.Dispatch.Settled.{none_starts, is_open, history_settled, close_settles}
use termroom.NodeCore.Dispatch.Late.{is_stream_kind}
use termroom.NodeCore.Stream.Queue.{IsOrderly}
use termroom.NodeCore.Stream.Delivery.{run-IsOrderly, sent}
use termroom.NodeCore.Stream.Reader.{got, fifo, read_on, read-feed_end}
use termroom.Prelude.Lists.{drop}

abbrev acts : List Act
acts = feeds_data (1 ∷ []) ∷ receives ∷ feeds_data (2 ∷ 3 ∷ []) ∷ feeds_control no_members ∷ []

acts_open : (run acts new_stream).closed ≡ false
unfolding run apply feed_item receive_event
acts_open = refl

run-IsOrderly_example :
    IsOrderly (run acts new_stream)
    × ((feed_end (run acts new_stream) no_members).raised ≢ some queue_full)
    × ((feed_error (run acts new_stream) stream_overflow).raised ≢ some queue_full)
run-IsOrderly_example = run-IsOrderly acts no_members stream_overflow

fifo_example :
    got acts new_stream ++ map received (run acts new_stream).queue ≡ map received (sent acts)
fifo_example = fifo acts acts_open

-- as many chunks as the queue holds
abbrev chunks : ℕ → List Act
chunks zero = []
chunks (suc n) = feeds_data (n ∷ []) ∷ chunks n

chunks_open : (run (chunks 32) new_stream).closed ≡ false
unfolding run apply feed_item
chunks_open = refl

chunks_full : full (run (chunks 32) new_stream).queue ≡ true
unfolding run apply feed_item
chunks_full = refl

read-feed_end_example :
    read_on 40 (feed_end (run (chunks 32) new_stream) no_members).stream
    ≡ map received (drop 1 (run (chunks 32) new_stream).queue) ++ ended ∷ []
unfolding run apply feed_item
read-feed_end_example = read-feed_end (chunks 32) no_members 40 chunks_open (omega arith)

abbrev show : Json → Text
show value = codes "None"

abbrev decode : Text → Option (List ℕ)
decode t = some t

abbrev request_id : Text
request_id = codes "0123456789abcdef0123456789abcdef"

abbrev response : Members
response =
    member (codes "type") (text (codes "response"))
      (member (codes "id") (text request_id) (member (codes "ok") (boolean true) no_members))

abbrev requested : List NodeEvent
requested = begins_request request_id ∷ dispatches response ∷ []

abbrev answered : NodeConnection
answered = history show decode requested new_connection

abbrev later : List NodeEvent
later =
    ends_request request_id false
    ∷ dispatches response
    ∷ begins_stream request_id
    ∷ disconnects
    ∷ []

answered_some : is_some (answered.futures request_id) ≡ true
unfolding history step dispatch dispatch_response begin_request get is_request_id text_eq any
answered_some = refl

answered_done : is_waiting (answered.futures request_id) ≡ false
unfolding history step dispatch dispatch_response begin_request get is_request_id text_eq any
answered_done = refl

later_quiet : none_starts show decode later request_id ≡ true
unfolding none_starts
later_quiet = refl

history_settled_example :
    (history show decode later answered).futures request_id ≡ answered.futures request_id
history_settled_example =
    history_settled show decode later answered request_id later_quiet answered_some answered_done

abbrev opened : List NodeEvent
opened = begins_request request_id ∷ begins_stream request_id ∷ []

opened_live : (history show decode opened new_connection).closed ≡ false
unfolding history step begin_request begin_stream
opened_live = refl

close_settles_example :
    (is_waiting ((close (history show decode opened new_connection)).futures request_id) ≡ false)
    × (((history show decode opened new_connection).registered request_id
          && is_open ((close (history show decode opened new_connection)).streams request_id))
        ≡ false)
close_settles_example = close_settles show decode opened request_id opened_live

abbrev data_message : Members
data_message =
    member (codes "type") (text (codes "stream.data"))
      (member (codes "stream_id") (text request_id) no_members)

abbrev live : NodeConnection
live = history show decode opened new_connection

live_registered : live.registered request_id ≡ true
unfolding history step begin_request begin_stream text_eq
live_registered = refl

request_id_ok : is_request_id request_id ≡ true
unfolding is_request_id any
request_id_ok = refl

data_names : text_or show (get data_message (codes "stream_id")) [] ≡ request_id
unfolding get text_eq
data_names = refl

data_kind : is_stream_kind (get data_message (codes "type")) ≡ true
unfolding get text_eq
data_kind = refl
