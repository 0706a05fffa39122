-- ===== src/NodeCore/Dispatch/Settled.antt =====
-- A request is settled once, and not left waiting (`NodeConnection` of termroom/node_core.py).
use termroom.Prelude.{
  ℕ, Bool, true, false, ◌&&◌, not, Option, none, some, List, [], ◌∷◌, Text, codes, text_eq,
  eq_of_text_eq, is_some, ◌≡◌, ◌⊎◌, inl, inr, refl, sym, ap, subst, arith, Bool-cases,
  true_not_false, ◌∙◌,
}
use termroom.NodeCore.Json.{Json, Members, get, text_or}
use termroom.NodeCore.Stream.{StreamError, node_error, NodeStream, replace_queue_tail, feed_error}
use termroom.NodeCore.Connection.{
  Future, waiting, resolved, failed, cancelled, NodeConnection, new_connection, begin_request,
  is_waiting, end_request, begin_stream, forget_stream, close_stream, receive,
}
use termroom.NodeCore.Dispatch.{
  dispatch_response, dispatch, fail_future, fail_stream, close, NodeEvent, begins_request,
  begins_stream, forgets_stream, closes_stream, receives_from, ends_request, dispatches,
  disconnects, step, history,
}
use termroom.NodeCore.Dispatch.Frame.{
  KeepsRequests, close_stream-KeepsRequests, receive-KeepsRequests, dispatch-cases,
}

-- what a response can do to the future of a request
response-future :
    (show : Json → Text) (c : NodeConnection) (message : Members) (j : Text)
    → ((dispatch_response show c message).connection.futures j ≡ c.futures j)
      ⊎ ((is_waiting (c.futures j) ≡ true)
          × (is_waiting ((dispatch_response show c message).connection.futures j) ≡ false))
unfolding dispatch_response
response-future show c message j =
    let id = text_or show (get message (codes "id")) [] in
    elim (Bool-cases (text_eq id j)) [
      | inl e ↦ ground (arith, e, eq_of_text_eq id j e)
      | inr n ↦ ground (arith, n)
    ]

response-pending :
    (show : Json → Text) (c : NodeConnection) (message : Members)
    → ((dispatch_response show c message).connection.pending ≡ c.pending)
      × ((dispatch_response show c message).connection.closed ≡ c.closed)
unfolding dispatch_response
response-pending show c message = ground arith

module _ (show : Json → Text) (decode : Text → Option (List ℕ)) (c : NodeConnection) where
  dispatch-future :
      (message : Members) (j : Text)
      → ((dispatch show decode c message).connection.futures j ≡ c.futures j)
        ⊎ ((is_waiting (c.futures j) ≡ true)
            × (is_waiting ((dispatch show decode c message).connection.futures j) ≡ false))
  dispatch-future message j = elim (dispatch-cases show c message decode) [
    | inl r ↦
        subst
          (λ h.
            (h.connection.futures j ≡ c.futures j)
            ⊎ ((is_waiting (c.futures j) ≡ true) × (is_waiting (h.connection.futures j) ≡ false)))
          (sym r) (response-future show c message j)
    | inr k ↦ inl (ap (λ f. f j) k.0)
  ]

  dispatch-pending :
      (message : Members)
      → ((dispatch show decode c message).connection.pending ≡ c.pending)
        × ((dispatch show decode c message).connection.closed ≡ c.closed)
  dispatch-pending message = elim (dispatch-cases show c message decode) [
    | inl r ↦
        subst (λ h. (h.connection.pending ≡ c.pending) × (h.connection.closed ≡ c.closed)) (sym r)
          (response-pending show c message)
    | inr k ↦ (k.1, k.2)
  ]

-- the event starts a request under this identifier
abbrev pub starts : NodeEvent → Text → Bool
starts (begins_request id) j = text_eq id j
starts _ j = false

fail-settled : (o : Option Future) → is_some o ≡ true → is_waiting o ≡ false → fail_future o ≡ o
fail-settled none s w = refl
fail-settled (some waiting) s w = cc
fail-settled (some (resolved r)) s w = refl
fail-settled (some (failed e)) s w = refl
fail-settled (some cancelled) s w = refl

fail-not_waiting : (o : Option Future) → is_waiting (fail_future o) ≡ false
fail-not_waiting none = refl
fail-not_waiting (some waiting) = refl
fail-not_waiting (some (resolved r)) = refl
fail-not_waiting (some (failed e)) = refl
fail-not_waiting (some cancelled) = refl

same_pending :
    (c d : NodeConnection)
    → KeepsRequests c d
    → (j : Text) → (is_waiting (c.futures j) ≡ true → c.pending j ≡ true)
    → is_waiting (d.futures j) ≡ true
    → d.pending j ≡ true
same_pending c d k j i w = ap (λ f. f j) k.1 ∙ i (sym (ap (λ f. is_waiting (f j)) k.0) ∙ w)

abbrev pub is_open : Option NodeStream → Bool
is_open none = false
is_open (some s) = not s.closed

feed_error-closes : (s : NodeStream) (e : StreamError) → (feed_error s e).stream.closed ≡ true
unfolding feed_error replace_queue_tail
feed_error-closes s e = ground arith

fail-not_open : (o : Option NodeStream) → is_open (fail_stream o) ≡ false
fail-not_open none = refl
fail-not_open (some s) = ground (arith, feed_error-closes s (node_error (codes "node_offline")))

close-not_open :
    (c : NodeConnection) (j : Text)
    → c.closed ≡ false
    → (c.registered j && is_open ((close c).streams j)) ≡ false
unfolding close
close-not_open c j o = ground (arith, o, fail-not_open (c.streams j))

module _ (show : Json → Text) (decode : Text → Option (List ℕ)) where
  step_settled :
      (e : NodeEvent) (c : NodeConnection) (j : Text)
      → starts e j ≡ false
      → is_some (c.futures j) ≡ true
      → is_waiting (c.futures j) ≡ false
      → (step show decode e c).futures j ≡ c.futures j
  unfolding step begin_request begin_stream forget_stream close_stream receive end_request close
  step_settled (begins_request id) c j n s w = ground (arith, n)
  step_settled (begins_stream id) c j n s w = refl
  step_settled (forgets_stream id) c j n s w = refl
  step_settled (closes_stream id) c j n s w = ap (λ f. f j) (close_stream-KeepsRequests c id).0
  step_settled (receives_from id) c j n s w = ap (λ f. f j) (receive-KeepsRequests c id).0
  step_settled (ends_request id is_cancelled) c j n s w = elim (Bool-cases (text_eq id j)) [
    | inl e ↦ ground (arith, e, eq_of_text_eq id j e, w)
    | inr d ↦ ground (arith, d)
  ]
  step_settled (dispatches message) c j n s w = elim (dispatch-future show decode c message j) [
    | inl e ↦ e
    | inr k ↦ ground (arith, k, w)
  ]
  step_settled disconnects c j n s w = ground (arith, s, w, fail-settled (c.futures j))

  -- none of the events starts a request under this identifier
  unfoldable pub none_starts : List NodeEvent → Text → Bool
  none_starts [] j = true
  none_starts (e ∷ events) j = not (starts e j) && none_starts events j

  -- A request that has its result, its error or its cancellation keeps it, whatever happens to the
  -- connection later, if no later request is started under its identifier.
  pub history_settled :
      (events : List NodeEvent) (c : NodeConnection) (j : Text)
      → none_starts events j ≡ true
      → is_some (c.futures j) ≡ true
      → is_waiting (c.futures j) ≡ false
      → (history show decode events c).futures j ≡ c.futures j
  unfolding history none_starts
  history_settled [] c j n s w = refl
  history_settled (e ∷ events) c j n s w =
      let k = step_settled e c j (ground (arith, n)) s w in
      history_settled events (step show decode e c) j (ground (arith, n)) (ap is_some k ∙ s)
        (ap is_waiting k ∙ w)
      ∙ k

  -- a future that is waited for belongs to a pending request
  step_pending :
      (e : NodeEvent) (c : NodeConnection) (j : Text)
      → (is_waiting (c.futures j) ≡ true → c.pending j ≡ true)
      → is_waiting ((step show decode e c).futures j) ≡ true
      → (step show decode e c).pending j ≡ true
  unfolding step begin_request begin_stream forget_stream end_request close
  step_pending (begins_request id) c j i w = ground (arith, i, w)
  step_pending (begins_stream id) c j i w = i w
  step_pending (forgets_stream id) c j i w = i w
  step_pending (closes_stream id) c j i w =
      same_pending c (close_stream c id) (close_stream-KeepsRequests c id) j i w
  step_pending (receives_from id) c j i w =
      same_pending c (receive c id) (receive-KeepsRequests c id) j i w
  step_pending (ends_request id is_cancelled) c j i w = elim (Bool-cases (text_eq id j)) [
    | inl e ↦ ground (arith, e, eq_of_text_eq id j e, w)
    | inr d ↦ ground (arith, d, w, i)
  ]
  step_pending (dispatches message) c j i w =
      let p = ap (λ f. f j) (dispatch-pending show decode c message).0 in
      elim (dispatch-future show decode c message j) [
        | inl e ↦ p ∙ i (sym (ap is_waiting e) ∙ w)
        | inr k ↦ absurd (true_not_false (sym w ∙ k.1))
      ]
  step_pending disconnects c j i w = ground (arith, w, i, fail-not_waiting (c.futures j))

  history_pending :
      (events : List NodeEvent) (c : NodeConnection) (j : Text)
      → (is_waiting (c.futures j) ≡ true → c.pending j ≡ true)
      → is_waiting ((history show decode events c).futures j) ≡ true
      → (history show decode events c).pending j ≡ true
  unfolding history
  history_pending [] c j i w = i w
  history_pending (e ∷ events) c j i w =
      history_pending events (step show decode e c) j (step_pending e c j i) w

  close-not_waiting :
      (c : NodeConnection) (j : Text)
      → (is_waiting (c.futures j) ≡ true → c.pending j ≡ true)
      → c.closed ≡ false
      → is_waiting ((close c).futures j) ≡ false
  unfolding close
  close-not_waiting c j i o = elim (Bool-cases (is_waiting (c.futures j))) [
    | inl w ↦ ground (arith, o, i w, fail-not_waiting (c.futures j))
    | inr n ↦ ground (arith, o, n, fail-not_waiting (c.futures j))
  ]

  -- When a connection that is open is closed, after anything that happened to it, no request is left
  -- waiting, and no stream that was registered is left open.
  pub close_settles :
      (events : List NodeEvent) (j : Text)
      → (history show decode events new_connection).closed ≡ false
      → (is_waiting ((close (history show decode events new_connection)).futures j) ≡ false)
        × (((history show decode events new_connection).registered j
              && is_open ((close (history show decode events new_connection)).streams j))
            ≡ false)
  close_settles events j o =
      let c = history show decode events new_connection in
      (
        close-not_waiting c j (history_pending events new_connection j (λ w. cc)) o,
        close-not_open c j o,
      )
