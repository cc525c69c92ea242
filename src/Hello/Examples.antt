-- ===== src/Hello/Examples.antt =====
-- A client and a server with one key for AES.
use lunnel.Base.{
  ℕ, ◌≡◌, refl, arith, true, false, Option, none, some, List, [], ◌∷◌, ◌++◌, replicate,
}
use lunnel.Base.Text.{text}
use lunnel.Base.Bytes.{big24}
use lunnel.Msg.{Body, client_hello}
use lunnel.Msg.Conn.{Conn, Event, chunk}
use lunnel.Msg.Write.{write_msg, encode, frame, send}
use lunnel.Msg.Read.{
  read_msg_timed, read_msg, read_kind, read_body, read_in_size, read_loop, kind_of,
}
use lunnel.Crypto.Stream.{fresh, new_crypto_stream, new_cipher}
use lunnel.Hello.{
  Transport, aes, ServerModes, ClientModes, hello_of, refusal, aes_over, layer, reply, with_layer,
  set_up, greet, dispatch, handle_conn, put_on, after_answer, dial,
}
use lunnel.Hello.Agreement.{dial-handle_conn_agree}
use lunnel.Hello.Greeting.{handle_conn-greeted}

abbrev client : ClientModes
client = record {
  encrypt_mode = text "aes";
  enable_compress = false;
  version = [];
  secret_key = replicate 16 1;
}

abbrev server : ServerModes
server = record { tls_cert = []; tls_key = []; secret_key = replicate 16 1 }

abbrev cipher : List ℕ → List ℕ → List ℕ
cipher k b = k

-- A stand-in for encoding/json that knows this hello only.
abbrev marshal : Body → Option (List ℕ)
marshal b = some (9 ∷ [])

abbrev unmarshal : ℕ → List ℕ → Option Body
unmarshal t bs = some (client_hello (hello_of client))

abbrev conn : List Event → List ℕ → ℕ → Conn
conn incoming sent accepts = record {
  incoming = incoming;
  sent = sent;
  accepts = accepts;
  read_deadline = none;
  write_deadline = none;
}

abbrev to_server : List ℕ
to_server = 0 ∷ 0 ∷ 0 ∷ 1 ∷ 9 ∷ []

abbrev to_client : List ℕ
to_client = 1 ∷ 0 ∷ 0 ∷ 0 ∷ []

abbrev over : Transport
over = aes (fresh (record { block_size = 16; encrypt_block = λ b. replicate 16 1 }))

dial-handle_conn_agree_example : (hello_of client ≡ hello_of client) × (over ≡ over)
unfolding dial handle_conn dispatch greet reply with_layer set_up after_answer put_on layer aes_over
    refusal new_crypto_stream new_cipher write_msg encode frame send read_msg_timed read_msg
    read_kind read_body read_in_size read_loop kind_of big24
dial-handle_conn_agree_example =
    dial-handle_conn_agree cipher marshal unmarshal server client false true true true
      (conn (chunk to_client ∷ []) [] 100) (conn (chunk to_server ∷ []) [] 100)
      (conn [] to_server 95) (conn [] to_client 96) over over (hello_of client) (omega arith, refl)
      refl refl refl refl

handle_conn-greeted_example : to_client ≡ [] ++ frame 1 []
unfolding handle_conn dispatch greet reply with_layer set_up layer aes_over refusal
    new_crypto_stream new_cipher write_msg encode frame send read_msg_timed read_msg read_kind
    read_body read_in_size read_loop kind_of big24
handle_conn-greeted_example =
    handle_conn-greeted cipher marshal unmarshal server false true
      (conn (chunk to_server ∷ []) [] 100) (conn [] to_client 96) over (hello_of client)
      (λ e. absurd (ground (arith, e))) refl
