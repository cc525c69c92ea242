-- ===== src/Vhost/Examples.antt =====
-- A client hello with a host name.
use lunnel.Base.{◌≡◌, refl, arith, some, [], ◌∷◌, replicate}
use lunnel.Base.Text.{text, trim_space, trim_fuel, space_size}
use lunnel.Base.Result.{ok, NoPanic}
use lunnel.Vhost.Handshake.{read_handshake}
use lunnel.Vhost.Handshake.Safety.{read_handshake-NoPanic}
use lunnel.Vhost.Handshake.Encoding.{
  Hello, IsHello, server_names, other, hello_bytes, chosen_host, host_name,
}
use lunnel.Vhost.Handshake.ServerName.{read_handshake-hello_bytes}

abbrev hello : Hello
hello = record {
  start = 22 ∷ 3 ∷ 1 ∷ 0 ∷ 80 ∷ 1 ∷ replicate 37 0;
  session_id = 9 ∷ 9 ∷ [];
  cipher_suites = 19 ∷ 1 ∷ [];
  compression = 0 ∷ [];
  extensions =
      other 11 (1 ∷ 0 ∷ [])
      ∷ server_names ((1, text "x") ∷ (0, text "a.b ") ∷ [])
      ∷ other 65281 (7 ∷ [])
      ∷ [];
}

hello-IsHello : IsHello hello
hello-IsHello = record {
  start_length = refl;
  handshake_type = refl;
  session_short = omega arith;
  suites_even = refl;
  suites_fit = omega arith;
  compression_fits = omega arith;
  extensions_fit = omega arith;
  types = (omega arith, λ e. omega arith, (omega arith, λ e. omega arith, tt));
}

read_handshake-hello_bytes_example :
    read_handshake (some (hello_bytes hello)) ≡ chosen_host hello.extensions
read_handshake-hello_bytes_example = read_handshake-hello_bytes hello hello-IsHello

-- The blank at the end of the name is trimmed.
host_of_hello : chosen_host hello.extensions ≡ ok (text "a.b")
unfolding chosen_host host_name trim_space trim_fuel space_size
host_of_hello = refl

read_handshake-NoPanic_example : NoPanic (read_handshake (some (22 ∷ 3 ∷ 1 ∷ [])))
read_handshake-NoPanic_example = read_handshake-NoPanic (some (22 ∷ 3 ∷ 1 ∷ []))
