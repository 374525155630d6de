-- ===== src/Tests/Clients.antt =====
-- Tests and examples of the websocket client.
use karo_x2_sdk_python.Prelude.{◌≡◌, refl, true, false, [], ◌∷◌, none, some}
use karo_x2_sdk_python.Client.{
  WsClient, binary, text, connection_closed, read_loop, build_ssl_context, of_ssl,
}
use karo_x2_sdk_python.Client.Reading.{IsListening, read_loop-told, handed_on, ends_told}
use karo_x2_sdk_python.Client.Trust.{AsAsked, build_ssl_context-AsAsked}
use karo_x2_sdk_python.Tests.{options}

abbrev client : WsClient
client = record {
  ws = some false;
  read_task = true;
  closed = false;
  on_message = true;
  on_close = true;
}

client-IsListening : IsListening client
client-IsListening = record { connected = refl; messages = refl; closes = refl; first = refl }

read_loop-told_example :
    let calls =
      (read_loop client (binary (1 ∷ 2 ∷ []) ∷ text "hi" ∷ []) (connection_closed 1006 "lost")).1 in
    (handed_on calls ≡ (1 ∷ 2 ∷ []) ∷ []) × (ends_told calls ≡ 1)
read_loop-told_example =
    read_loop-told client (binary (1 ∷ 2 ∷ []) ∷ text "hi" ∷ []) (connection_closed 1006 "lost")
      client-IsListening

build_ssl_context-AsAsked_example :
    AsAsked options.cert (build_ssl_context options.cert none (some (of_ssl "bad key")))
build_ssl_context-AsAsked_example =
    build_ssl_context-AsAsked options.cert none (some (of_ssl "bad key"))
