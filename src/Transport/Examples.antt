-- ===== src/Transport/Examples.antt =====
-- A proxy that refuses the request: its connection is left open.
use lunnel.Base.{none, some, [], ◌∷◌, true}
use lunnel.Base.Text.{text}
use lunnel.Base.Result.{err}
use lunnel.Transport.{
  Net, code_not_200, Outcome, create_conn, by_proxy, through, after_response, after_body,
  create_conn-Outcome,
}

abbrev net : Net
net = record {
  dial_kcp = λ a. none;
  dial_tcp = λ a. some 5;
  parse_url = λ u. some (record { host = u; user = none });
  new_request = λ u. true;
  ask = λ c r. some (record { status_code = 407; body = some [] });
}

create_conn-Outcome_example :
    Outcome net (text "a:1") (text "tcp") (text "p:2") (err (code_not_200 []), 5 ∷ [])
unfolding create_conn by_proxy through after_response after_body
create_conn-Outcome_example = create_conn-Outcome net (text "a:1") (text "tcp") (text "p:2")
