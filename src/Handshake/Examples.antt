-- ===== src/Handshake/Examples.antt =====
-- Handshakes on a curve in which all products are the same.
use lunnel.Base.{
  ℕ, ◌≡◌, refl, subst, sym, ap, arith, Option, none, some, List, [], ◌∷◌, ◌==◌, if◌then◌else◌,
  length, get_or,
}
use lunnel.Base.Text.{text}
use lunnel.Base.Result.{ok, ok-injective}
use lunnel.Crypto.KeyExchange.{
  Curve, process_key_exchange, generate_key_exchange, unmarshal_or_fail, pad_secret,
}
use lunnel.Crypto.KeyExchange.Agreement.{IsCurve}
use lunnel.Msg.{
  Body, control_client_hello, control_server_hello, ControlClientHello, ControlServerHello,
}
use lunnel.Msg.Conn.{Conn, Event, chunk}
use lunnel.Msg.Write.{write_msg, encode, frame, send}
use lunnel.Msg.Read.{
  read_msg_timed, read_msg, read_kind, read_body, read_in_size, read_loop, kind_of,
}
use lunnel.Base.Bytes.{big24}
use lunnel.Handshake.{
  Agreed, as_client_hello, as_server_hello, check_auth, choose_id, make_key, secret_of, answer,
  finish, hello_of, server_hand_shake, client_hand_shake,
}
use lunnel.Handshake.Agreement.{hand_shakes-agree}
use lunnel.Handshake.Safety.{server_hand_shake-NoPanic}
use lunnel.Msg.Typed.{KeepsType, fits}
use lunnel.Base.{Bool-cases, inl, inr, true}
use lunnel.Base.Result.{NoPanic}

abbrev toy : Curve
toy = record {
  Point = ℕ;
  bit_size = 9;
  generate_key = λ r. some (r ∷ [], 7);
  marshal = λ p. p ∷ [];
  unmarshal = λ bs. if length bs == 1 then some (get_or bs 0 0) else none;
  is_on_curve = λ p. p == 7;
  scalar_mult = λ p k. p ∷ [];
}

toy-IsCurve : IsCurve toy
toy-IsCurve = record {
  unmarshal-marshal = λ r k p e. ground arith;
  on_curve = λ r k p e. ground arith;
  marshal_short = λ p. omega arith;
  x_fits = λ p k. omega arith;
  agrees = λ r s k l p q e f. ground arith;
}

abbrev hello : ControlClientHello
hello = record { cipher_key = 1 ∷ 7 ∷ []; auth_token = []; client_id = none }

abbrev reply : ControlServerHello
reply = record { client_id = 5 ∷ []; cipher_key = 1 ∷ 7 ∷ [] }

-- A stand-in for encoding/json that knows these two values only.
abbrev marshal : Body → Option (List ℕ)
marshal b = some (9 ∷ [])

abbrev unmarshal : ℕ → List ℕ → Option Body
unmarshal t bs =
    if t == 2 then some (control_client_hello hello) else some (control_server_hello reply)

abbrev conn : List Event → List ℕ → ℕ → Conn
conn incoming sent accepts = record {
  incoming = incoming;
  sent = sent;
  accepts = accepts;
  read_deadline = none;
  write_deadline = none;
}

abbrev to_server : List ℕ
to_server = 2 ∷ 0 ∷ 0 ∷ 1 ∷ 9 ∷ []

abbrev to_client : List ℕ
to_client = 3 ∷ 0 ∷ 0 ∷ 1 ∷ 9 ∷ []

abbrev agreed : Agreed
agreed = record { client_id = 5 ∷ []; pre_master_secret = 0 ∷ 7 ∷ [] }

hand_shakes-agree_example : agreed ≡ agreed
unfolding client_hand_shake server_hand_shake answer finish make_key secret_of check_auth choose_id
    as_client_hello as_server_hello generate_key_exchange process_key_exchange unmarshal_or_fail
    pad_secret write_msg encode frame send read_msg_timed read_msg read_kind read_body read_in_size
    read_loop kind_of big24
hand_shakes-agree_example =
    hand_shakes-agree toy toy-IsCurve marshal unmarshal none (text "aes") 3 4 [] none (5 ∷ [])
      (conn (chunk to_client ∷ []) [] 100) (conn (chunk to_server ∷ []) [] 100)
      (conn [] to_server 95) (conn [] to_client 95) agreed agreed
      (λ pair e. (
        omega arith,
        ap
            (λ (p : List ℕ × List ℕ). some (
              control_client_hello
                (record { cipher_key = p.1; auth_token = []; client_id = none })))
            (ok-injective e),
      ))
      (λ pair r a e f. (
        omega arith,
        ap (λ (x : ControlServerHello × Agreed). some (control_server_hello x.0))
            (ok-injective (
              subst
                (λ (p : List ℕ × List ℕ).
                  answer toy none (text "aes") 4 (5 ∷ []) (hello_of toy marshal unmarshal [] none p)
                  ≡ ok (r, a))
                (sym (ok-injective e)) f)),
      ))
      refl refl refl refl

-- A stand-in that knows the client's message only.
abbrev unmarshal_hello : ℕ → List ℕ → Option Body
unmarshal_hello t bs = if t == 2 then some (control_client_hello hello) else none

unmarshal_hello-KeepsType : KeepsType unmarshal_hello
unfolding fits
unmarshal_hello-KeepsType t xs b e = elim (Bool-cases (t == 2)) [
  | inl two ↦ subst (λ o. fits t o ≡ true) (rw two at e) two
  | inr other ↦ absurd (ground (arith, e, other))
]

server_hand_shake-NoPanic_example :
    NoPanic
      (server_hand_shake toy marshal unmarshal_hello none
        (text "aes")
        4
        (5 ∷ [])
        (conn (chunk to_server ∷ []) [] 100)).0
server_hand_shake-NoPanic_example =
    server_hand_shake-NoPanic marshal unmarshal_hello toy toy-IsCurve unmarshal_hello-KeepsType none
      (text "aes") 4 (5 ∷ []) (conn (chunk to_server ∷ []) [] 100)
