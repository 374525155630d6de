-- ===== src/Client/Reading.antt =====
-- What the reading task tells the connection object.
use karo_x2_sdk_python.Error.{ErrorCode}
use karo_x2_sdk_python.Prelude.{
  map, ◌++◌, ◌==◌, if◌then◌else◌, Bool, Option, none, ℕ, ◌+◌, ◌≡◌, refl, true, false, List, [], ◌∷◌,
  some, ap, nat_eq,
}
use karo_x2_sdk_python.Codec.Wire.{Bytes}
use karo_x2_sdk_python.Client.{
  WsClient, Message, binary, text, ReadEnd, finished, connection_closed, read_failed, HandlerCall,
  read_loop, read_messages, read_on, read_end,
}

-- The binary messages, in order.
abbrev pub binaries : List Message → List Bytes
binaries [] = []
binaries (binary bytes ∷ messages) = bytes ∷ binaries messages
binaries (text s ∷ messages) = binaries messages

-- The messages that are handed on, and the number of reports of an end.
abbrev pub handed_on : List HandlerCall → List Bytes
handed_on [] = []
handed_on (HandlerCall.message bytes ∷ calls) = bytes ∷ handed_on calls
handed_on (HandlerCall.close reason msg ∷ calls) = handed_on calls

abbrev pub ends_told : List HandlerCall → ℕ
ends_told [] = 0
ends_told (HandlerCall.message bytes ∷ calls) = ends_told calls
ends_told (HandlerCall.close reason msg ∷ calls) = ends_told calls + 1

-- Whether the iteration was ended by an exception.
abbrev pub breaks : ReadEnd → ℕ
breaks finished = 0
breaks (connection_closed code msg) = 1
breaks (read_failed msg) = 1

pub record IsListening (c : WsClient) : Type 0 where
  pub connected : c.ws ≡ some false
  pub messages : c.on_message ≡ true
  pub closes : c.on_close ≡ true
  pub first : c.closed ≡ false

read_end-told :
    (c : WsClient) (end : ReadEnd)
    → IsListening c
    → (handed_on (read_end c end).1 ≡ []) × (ends_told (read_end c end).1 ≡ breaks end)
unfolding read_end
read_end-told c finished l = (refl, refl)
read_end-told c (connection_closed code msg) l = rw (l.first, l.closes) (refl, refl)
read_end-told c (read_failed msg) l = rw (l.first, l.closes) (refl, refl)

read_messages-told :
    (c : WsClient) (messages : List Message) (end : ReadEnd)
    → IsListening c
    → let calls = (read_messages c messages end).1 in
      (handed_on calls ≡ binaries messages) × (ends_told calls ≡ breaks end)
unfolding read_messages
read_messages-told c [] end l = read_end-told c end l
read_messages-told c (binary bytes ∷ messages) end l =
    let rest = read_messages-told c messages end l in
    rw l.messages (ap (λ xs. bytes ∷ xs) rest.0, rest.1)
read_messages-told c (text s ∷ messages) end l = read_messages-told c messages end l

read_on-told :
    (ws : Option Bool) (c : WsClient) (messages : List Message) (end : ReadEnd)
    → ws ≡ some false
    → IsListening c
    → let calls = (read_on ws c messages end).1 in
      (handed_on calls ≡ binaries messages) × (ends_told calls ≡ breaks end)
unfolding read_on
read_on-told none c messages end there l = absurd (cc)
read_on-told (some is_closed) c messages end there l = read_messages-told c messages end l

-- With a websocket and both handlers set, and no end reported before, the reading task hands on
-- every binary message and nothing else, in order, and reports an end once where an exception ended
-- the iteration, and not at all where the iteration finished.
pub read_loop-told :
    (c : WsClient) (messages : List Message) (end : ReadEnd)
    → IsListening c
    → let calls = (read_loop c messages end).1 in
      (handed_on calls ≡ binaries messages) × (ends_told calls ≡ breaks end)
unfolding read_loop
read_loop-told c messages end l = read_on-told c.ws c messages end l.connected l

-- The call that reports an end.
abbrev pub report : ReadEnd → List HandlerCall
report finished = []
report (connection_closed code msg) =
    HandlerCall.close (if code == 1000 then ErrorCode.cancelled else ErrorCode.transport_failure)
      msg
    ∷ []
report (read_failed msg) = HandlerCall.close ErrorCode.transport_failure msg ∷ []

read_end-calls : (c : WsClient) (end : ReadEnd) → IsListening c → (read_end c end).1 ≡ report end
unfolding read_end
read_end-calls c finished l = refl
read_end-calls c (connection_closed code msg) l = rw (l.first, l.closes) refl
read_end-calls c (read_failed msg) l = rw (l.first, l.closes) refl

read_messages-calls :
    (c : WsClient) (messages : List Message) (end : ReadEnd)
    → IsListening c
    → (read_messages c messages end).1 ≡ map HandlerCall.message (binaries messages) ++ report end
unfolding read_messages
read_messages-calls c [] end l = read_end-calls c end l
read_messages-calls c (binary bytes ∷ messages) end l =
    rw l.messages (ap (λ xs. HandlerCall.message bytes ∷ xs) (read_messages-calls c messages end l))
read_messages-calls c (text s ∷ messages) end l = read_messages-calls c messages end l

read_on-calls :
    (ws : Option Bool) (c : WsClient) (messages : List Message) (end : ReadEnd)
    → ws ≡ some false
    → IsListening c
    → (read_on ws c messages end).1 ≡ map HandlerCall.message (binaries messages) ++ report end
unfolding read_on
read_on-calls none c messages end there l = absurd (cc)
read_on-calls (some is_closed) c messages end there l = read_messages-calls c messages end l

-- The calls that the reading task makes: one for each binary message, in order, and the report.
pub read_loop-calls :
    (c : WsClient) (messages : List Message) (end : ReadEnd)
    → IsListening c
    → (read_loop c messages end).1 ≡ map HandlerCall.message (binaries messages) ++ report end
unfolding read_loop
read_loop-calls c messages end l = read_on-calls c.ws c messages end l.connected l
