-- ===== src/Client.antt =====
-- karo_x2_sdk/_internal/ws_client.py: the websocket client. The libraries `ssl` and `websockets` are
-- outside of the SDK: what a call of them comes to is an argument.
pub mod Reading
pub mod Trust
use karo_x2_sdk_python.Prelude.{
  ℕ, Bool, true, false, not, ◌&&◌, ◌||◌, String, ◌<>◌, List, [], ◌∷◌, ◌++◌, Option, some, none,
  if◌then◌else◌, ◌==◌, nat_eq,
}
use karo_x2_sdk_python.Error.{ErrorCode, SdkException}
use karo_x2_sdk_python.Options.{CertCredentials, is_empty}
use karo_x2_sdk_python.Codec.Wire.{Bytes}

-- `_ws` is `none`, or whether the library says that it is closed (`_is_ws_closed`). `read_task` is
-- whether there is one; `on_message` and `on_close` are whether they are set.
pub record WsClient : Type 0 where
  pub ws : Option Bool
  pub read_task : Bool
  pub closed : Bool
  pub on_message : Bool
  pub on_close : Bool

unfoldable pub new_client : WsClient
new_client = record {
  ws = none;
  read_task = false;
  closed = false;
  on_message = false;
  on_close = false;
}

-- `_is_ws_closed`
unfoldable pub is_ws_closed : Option Bool → Bool
is_ws_closed none = true
is_ws_closed (some closed) = closed

unfoldable pub is_open : WsClient → Bool
unfolding is_ws_closed
is_open c = not (is_ws_closed c.ws)

-- The root certificates that the context trusts.
pub data Roots : Type 0 where
  unchecked : Roots
  given : String → Roots
  system : Roots

-- `ssl.TLSVersion`
pub data TlsVersion : Type 0 where
  tlsv1 tlsv1_1 tlsv1_2 tlsv1_3 : TlsVersion

pub record SslContext : Type 0 where
  pub minimum_version : TlsVersion
  pub check_hostname : Bool
  pub verify_required : Bool
  pub roots : Roots
  pub client_chain : Option (String × String)

-- A context, or an exception of the SDK, or another one.
pub data Context : Type 0 where
  context : SslContext → Context
  refused : SdkException → Context
  broken : String → Context

-- An error of the `ssl` library: `ssl.SSLError`, or another one, with its text.
pub data LoadError : Type 0 where
  of_ssl : String → LoadError
  other : String → LoadError

roots_of : CertCredentials → Roots
roots_of cert =
    if cert.insecure_skip_verify
    then Roots.unchecked
    else if is_empty cert.ca_pem
    then Roots.system
    else Roots.given cert.ca_pem

with_chain : SslContext → CertCredentials → Option LoadError → Context
with_chain ctx cert none =
    context (record ctx { client_chain = some (cert.cert_pem, cert.key_pem) })
with_chain ctx cert (some (of_ssl text)) =
    refused (record { code = ErrorCode.auth_failed; message = "cert/key load: " <> text })
with_chain ctx cert (some (other text)) = broken text

-- The exception that loading the roots raises is not caught.
with_roots : Option String → Context → Context
with_roots none rest = rest
with_roots (some text) rest = broken text

-- `_build_ssl_context`; `roots_error` is the text of what `load_verify_locations` or
-- `load_default_certs` raises, `chain_error` what `load_cert_chain` does.
unfoldable pub build_ssl_context : CertCredentials → Option String → Option LoadError → Context
unfolding roots_of with_chain with_roots
build_ssl_context cert roots_error chain_error =
    let ctx : SslContext = record {
      minimum_version = TlsVersion.tlsv1_2;
      check_hostname = not cert.insecure_skip_verify;
      verify_required = not cert.insecure_skip_verify;
      roots = roots_of cert;
      client_chain = none;
    } in
    with_roots (if cert.insecure_skip_verify then none else roots_error) (
      if not (is_empty cert.cert_pem) && not (is_empty cert.key_pem)
      then with_chain ctx cert chain_error
      else context ctx)

-- What `asyncio.wait_for(websockets.connect(…))` comes to, with the text of its exception.
pub data Dial : Type 0 where
  opened : Dial
  timeout_error ssl_error invalid_handshake os_error other_error : String → Dial

-- What `connect` comes to: it returns, or raises an exception of the SDK, or another one.
pub data Connected : Type 0 where
  connected : WsClient → Connected
  raised : SdkException → Connected
  crashed : String → Connected

sdk_error : ErrorCode → String → Connected
sdk_error code message = Connected.raised (record { code = code; message = message })

dialled : WsClient → Dial → Connected
unfolding sdk_error
dialled c Dial.opened = connected (record c { ws = some false; read_task = true })
dialled c (Dial.timeout_error text) = sdk_error ErrorCode.timeout ("ws connect timeout: " <> text)
dialled c (Dial.ssl_error text) = sdk_error ErrorCode.auth_failed ("TLS error: " <> text)
dialled c (Dial.invalid_handshake text) =
    sdk_error ErrorCode.transport_failure ("WS handshake: " <> text)
dialled c (Dial.os_error text) = sdk_error ErrorCode.transport_failure ("TCP error: " <> text)
dialled c (Dial.other_error text) = crashed text

connect_with : WsClient → Context → Dial → Connected
unfolding dialled
connect_with c (context ctx) dial = dialled c dial
connect_with c (refused e) dial = Connected.raised e
connect_with c (broken text) dial = crashed text

-- `connect`
unfoldable pub connect :
    WsClient → CertCredentials → Option String → Option LoadError → Dial → Connected
unfolding connect_with
connect c cert roots_error chain_error dial =
    connect_with c (build_ssl_context cert roots_error chain_error) dial

-- A message of the websocket: the SDK reads the binary ones.
pub data Message : Type 0 where
  binary : Bytes → Message
  text : String → Message

-- How the iteration over the websocket ends. `websockets` lets it finish where the connection was
-- closed with 1000 or 1001, and raises `ConnectionClosed` with the code otherwise.
pub data ReadEnd : Type 0 where
  finished : ReadEnd
  connection_closed : ℕ → String → ReadEnd
  read_failed : String → ReadEnd

-- A call of a handler.
pub data HandlerCall : Type 0 where
  message : Bytes → HandlerCall
  close : ErrorCode → String → HandlerCall

-- `_fire_close`
unfoldable pub fire_close : WsClient → ErrorCode → String → WsClient × List HandlerCall
fire_close c reason msg =
    if c.closed
    then (c, [])
    else (record c { closed = true }, if c.on_close then HandlerCall.close reason msg ∷ [] else [])

read_end : WsClient → ReadEnd → WsClient × List HandlerCall
unfolding fire_close
read_end c finished = (c, [])
read_end c (connection_closed code msg) =
    fire_close c (if code == 1000 then ErrorCode.cancelled else ErrorCode.transport_failure) msg
read_end c (read_failed msg) = fire_close c ErrorCode.transport_failure msg

-- What one message leads to.
received : WsClient → Message → List HandlerCall
received c (binary bytes) = if c.on_message then HandlerCall.message bytes ∷ [] else []
received c (text s) = []

-- The loop over the messages that come in, up to the end of the iteration.
unfoldable pub read_messages : WsClient → List Message → ReadEnd → WsClient × List HandlerCall
unfolding read_end received
read_messages c [] end = read_end c end
read_messages c (m ∷ messages) end =
    let (c', calls) = read_messages c messages end in (c', received c m ++ calls)

read_on : Option Bool → WsClient → List Message → ReadEnd → WsClient × List HandlerCall
unfolding read_messages
read_on none c messages end = (c, [])
read_on (some is_closed) c messages end = read_messages c messages end

-- `_read_loop`
unfoldable pub read_loop : WsClient → List Message → ReadEnd → WsClient × List HandlerCall
unfolding read_on
read_loop c messages end = read_on c.ws c messages end

-- `send`; the flag is whether the library's send returns.
unfoldable pub send : WsClient → Bool → Bool
unfolding is_ws_closed
send c returns = if is_ws_closed c.ws then false else returns

-- `close`: the client afterwards, and whether the library's close was called. Nothing is left of the
-- reading task, whether the caller waits for it or is that task itself.
unfoldable pub close_client : WsClient → Bool × WsClient
close_client c = elim c.ws [
  | none ↦ (false, c)
  | some closed ↦ (not closed, record c { ws = none; read_task = false })
]
