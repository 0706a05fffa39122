-- ===== src/NodeCore/Dispatch/Late.antt =====
-- Messages that come after a stream was dropped (`NodeConnection` of termroom/node_core.py).
use termroom.Prelude.{
  ℕ, Bool, true, false, ◌||◌, Option, none, some, List, [], ◌∷◌, ◌++◌, Text, codes, text_eq,
  text_eq_refl, eq_of_text_eq, contains, ◌≡◌, inl, inr, refl, sym, arith, Bool-cases,
  true_not_false, contains-append, ◌∙◌,
}
use termroom.Prelude.Lists.{drop}
use termroom.NodeCore.Json.{
  Json, null, boolean, integer, real, text, array, object, Members, get, text_or, is_literal,
}
use termroom.NodeCore.Connection.{
  NodeConnection, done, remember, is_request_id, drop_stream, late, stream_of,
}
use termroom.NodeCore.Dispatch.{
  dispatch_stream_data, dispatch_stream_control, dispatch_stream_close, dispatch_stream_error,
  dispatch,
}

contains-last : (q : List Text) (id : Text) → contains (q ++ id ∷ []) id ≡ true
contains-last q id = ground (arith, contains-append q id id, text_eq_refl id)

contains-remember : (q : List Text) (id : Text) → contains (remember q id) id ≡ true
unfolding remember drop
contains-remember [] id = contains-last [] id
contains-remember (x ∷ q) id = ground (arith, contains-last q id, contains-last (x ∷ q) id)

-- a message about a stream
abbrev pub is_stream_kind : Option Json → Bool
is_stream_kind kind =
    is_literal kind (codes "stream.data")
    || is_literal kind (codes "stream.control")
    || is_literal kind (codes "stream.close")
    || is_literal kind (codes "stream.error")

response_word :
    (t : Text) → text_eq t (codes "response") ≡ true → is_stream_kind (some (text t)) ≡ false
unfolding text_eq
response_word t e = rw (eq_of_text_eq t (codes "response") e) refl

not_response :
    (kind : Option Json) → is_stream_kind kind ≡ true → is_literal kind (codes "response") ≡ false
not_response none k = refl
not_response (some null) k = refl
not_response (some (boolean b)) k = refl
not_response (some (integer s n)) k = refl
not_response (some (real z t)) k = refl
not_response (some (array a)) k = refl
not_response (some (object m)) k = refl
not_response (some (text t)) k = elim (Bool-cases (text_eq t (codes "response"))) [
  | inl e ↦ absurd (true_not_false (sym k ∙ response_word t e))
  | inr n ↦ n
]

module _ (show : Json → Text) (c : NodeConnection) (message : Members)
    (l : stream_of show c message ≡ late) where
  data-late :
      (decode : Text → Option (List ℕ)) → dispatch_stream_data show decode c message ≡ done c
  unfolding dispatch_stream_data
  data-late decode = ground (arith, l)

  control-late : dispatch_stream_control show c message ≡ done c
  unfolding dispatch_stream_control
  control-late = ground (arith, l)

  close-late : dispatch_stream_close show c message ≡ done c
  unfolding dispatch_stream_close
  close-late = ground (arith, l)

  error-late : dispatch_stream_error show c message ≡ done c
  unfolding dispatch_stream_error
  error-late = ground (arith, l)

  dispatch-late :
      (decode : Text → Option (List ℕ))
      → is_literal (get message (codes "type")) (codes "response") ≡ false
      → is_stream_kind (get message (codes "type")) ≡ true
      → dispatch show decode c message ≡ done c
  unfolding dispatch
  dispatch-late decode n k =
      ground (arith, n, k, data-late decode, control-late, close-late, error-late)

module _ (show : Json → Text) (c : NodeConnection) (id : Text) (message : Members) where
  stream_of-late :
      c.registered id ≡ true
      → is_request_id id ≡ true
      → text_or show (get message (codes "stream_id")) [] ≡ id
      → stream_of show (drop_stream c id) message ≡ late
  unfolding stream_of drop_stream
  stream_of-late r v e =
      ground (arith, r, v, e, contains-remember c.closed_streams id, text_eq_refl id)

  -- A message about a stream that was just dropped is ignored: nothing changes and nothing is raised,
  -- whatever else the message says.
  pub late_ignored :
      (decode : Text → Option (List ℕ))
      → c.registered id ≡ true
      → is_request_id id ≡ true
      → text_or show (get message (codes "stream_id")) [] ≡ id
      → is_stream_kind (get message (codes "type")) ≡ true
      → dispatch show decode (drop_stream c id) message ≡ done (drop_stream c id)
  late_ignored decode r v e k =
      dispatch-late show (drop_stream c id) message (stream_of-late r v e) decode
        (not_response (get message (codes "type")) k) k
