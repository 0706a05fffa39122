-- ===== src/NodeCore/Dispatch/Frame.antt =====
-- What the steps of a connection leave alone (termroom/node_core.py).
use termroom.Prelude.{
  ℕ, Option, List, Text, codes, ◌≡◌, ◌⊎◌, inl, inr, refl, arith, Bool-cases, Option-cases,
}
use termroom.Prelude.Lists.{take}
use termroom.Prelude.Dict.{put}
use termroom.NodeCore.Json.{Json, Members, get, text_or, is_literal}
use termroom.NodeCore.Stream.{
  node_error, NodeStream, Fed, feed_error, feed_end, receive_event, closed_here,
}
use termroom.NodeCore.Connection.{
  NodeConnection, NodeRaise, drop_stream, close_stream, receive, Found, found, late, refuses,
  stream_of, fed,
}
use termroom.NodeCore.Dispatch.{
  result_of, dispatch_response, dispatch_stream_data, dispatch_stream_control, finish,
  dispatch_stream_close, dispatch_stream_error, dispatch,
}

pub Found-cases :
    (f : Found)
    → ((id : Text) × (s : NodeStream) × (f ≡ found id s))
      ⊎ ((f ≡ late) ⊎ ((e : NodeRaise) × (f ≡ refuses e)))
Found-cases (found id s) = inl (id, s, refl)
Found-cases late = inr (inl refl)
Found-cases (refuses e) = inr (inr (e, refl))

-- a handler leaves the futures and the requests alone
abbrev pub KeepsRequests : NodeConnection → NodeConnection → Type 0
KeepsRequests c d = (d.futures ≡ c.futures) × (d.pending ≡ c.pending) × (d.closed ≡ c.closed)

pub drop-KeepsRequests : (c : NodeConnection) (id : Text) → KeepsRequests c (drop_stream c id)
unfolding drop_stream
drop-KeepsRequests c id = ground arith

pub close_stream-KeepsRequests :
    (c : NodeConnection) (id : Text) → KeepsRequests c (close_stream c id)
unfolding close_stream
close_stream-KeepsRequests c id = elim (Option-cases (c.streams id)) [
  | inl n ↦ ground (arith, n)
  | inr s ↦ ground (
    arith,
    s.1,
    drop-KeepsRequests (record c { streams = put c.streams id (closed_here s.0) }) id,
  )
]

pub receive-KeepsRequests : (c : NodeConnection) (id : Text) → KeepsRequests c (receive c id)
unfolding receive
receive-KeepsRequests c id = elim (Option-cases (c.streams id)) [
  | inl n ↦ ground (arith, n)
  | inr s ↦ elim (Option-cases (receive_event s.0)) [
    | inl n ↦ ground (arith, s.1, n)
    | inr r ↦ ground (arith, s.1, r.1)
  ]
]

fed-KeepsRequests :
    (c : NodeConnection) (id : Text) (f : Fed) → KeepsRequests c (fed c id f).connection
fed-KeepsRequests c id f = (refl, refl, refl)

finish-KeepsRequests :
    (c : NodeConnection) (id : Text) (f : Fed) → KeepsRequests c (finish c id f).connection
finish-KeepsRequests c id f =
    let d = drop-KeepsRequests (record c { streams = put c.streams id f.stream }) id in
    elim (Option-cases f.raised) [ inl n ↦ ground (arith, n, d) | inr r ↦ ground (arith, r.1) ]

module _ (show : Json → Text) (c : NodeConnection) (message : Members) where
  pub data-KeepsRequests :
      (decode : Text → Option (List ℕ))
      → KeepsRequests c (dispatch_stream_data show decode c message).connection
  unfolding dispatch_stream_data
  data-KeepsRequests decode = ground arith

  control-KeepsRequests : KeepsRequests c (dispatch_stream_control show c message).connection
  unfolding dispatch_stream_control
  control-KeepsRequests = ground arith

  close-KeepsRequests : KeepsRequests c (dispatch_stream_close show c message).connection
  unfolding dispatch_stream_close
  close-KeepsRequests = elim (Found-cases (stream_of show c message)) [
    | inr o ↦ ground (arith, o)
    | inl f ↦ elim (Option-cases (result_of (get message (codes "result")))) [
      | inl n ↦ ground (arith, f.2, n)
      | inr r ↦ ground (arith, f.2, r.1, finish-KeepsRequests c f.0 (feed_end f.1 r.0))
    ]
  ]

  error-KeepsRequests : KeepsRequests c (dispatch_stream_error show c message).connection
  unfolding dispatch_stream_error
  error-KeepsRequests = elim (Found-cases (stream_of show c message)) [
    | inr o ↦ ground (arith, o)
    | inl f ↦ ground (
      arith,
      f.2,
      finish-KeepsRequests c f.0 (
          feed_error f.1 (
            node_error
              (take 80 (text_or show (get message (codes "code")) (codes "stream_failed"))))),
    )
  ]

  -- only a response touches a future
  pub dispatch-cases :
      (decode : Text → Option (List ℕ))
      → (dispatch show decode c message ≡ dispatch_response show c message)
        ⊎ KeepsRequests c (dispatch show decode c message).connection
  unfolding dispatch
  dispatch-cases decode =
      let kind = get message (codes "type") in
      elim (Bool-cases (is_literal kind (codes "response"))) [
        | inl r ↦ inl (ground (arith, r))
        | inr n ↦ inr (
            ground (
              arith,
              n,
              data-KeepsRequests decode,
              control-KeepsRequests,
              close-KeepsRequests,
              error-KeepsRequests,
            ))
      ]
