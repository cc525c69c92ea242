-- ===== src/Client/Loops/Examples.antt =====
-- Runs of the loops of a client without tunnels, whose handler takes one.
use lunnel.Base.{ℕ, ◌≡◌, refl, false, Option, none, some, List, [], ◌∷◌, ◌++◌}
use lunnel.Base.Text.{text}
use lunnel.Base.Int.{pos}
use lunnel.Msg.{AddTunnels, Tunnel}
use lunnel.Client.Config.{Health}
use lunnel.Client.Loops.{
  Loops, posted, enqueued, step, here, next, run, post, respond, take_request, enqueue, send,
}
use lunnel.Client.Loops.Invariant.{IsSound, run-Reaches_IsSound}
use lunnel.Client.Loops.Order.{requests, Reaches-Grows}

abbrev web : Tunnel
web = record {
  public = record { schema = text "http"; host = text "a.b"; port = 80; allow_reallocate = false };
  local = record { schema = text "http"; host = text "c"; port = 0 };
  http_host_rewrite = [];
}

abbrev health : Health
health = record { interval = pos 20; time_out = pos 50 }

-- Every body asks for the one tunnel.
abbrev decode : List ℕ → Option AddTunnels
decode xs = some ((text "t", web) ∷ [])

abbrev started : Loops
started = run 100 (λ k. none)

-- A request comes in, and gets its place in the channel.
abbrev taken : Loops
taken = step health decode enqueued (step health decode (posted (some [])) started)

run-Reaches_IsSound_example : IsSound taken
unfolding run step post respond take_request enqueue send
run-Reaches_IsSound_example =
    run-Reaches_IsSound health decode 100 (λ k. none) taken
      (next (next here (posted (some [])) refl tt) enqueued refl tt)

Reaches-Grows_example : (more : List AddTunnels) × (requests taken ≡ requests started ++ more)
unfolding run step post respond take_request enqueue send
Reaches-Grows_example =
    Reaches-Grows health decode started taken
      (next (next here (posted (some [])) refl tt) enqueued refl tt)
