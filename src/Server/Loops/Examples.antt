-- ===== src/Server/Loops/Examples.antt =====
-- A control with one tunnel, and its loops.
use lunnel.Base.{
  ℕ, ◌≤◌, ◌⊎◌, ◌≡◌, refl, subst, Bool-cases, inl, inr, arith, true, false, Option, none, some, List,
  [], ◌∷◌, ◌==◌, if◌then◌else◌,
}
use lunnel.Base.Text.{Text, text}
use lunnel.Base.Int.{pos}
use lunnel.Msg.{Body, error}
use lunnel.Msg
use lunnel.Health.{is_timed_out, nanos, elapsed, too_soon}
use lunnel.Msg.Conn.{Conn, chunk}
use lunnel.Msg.Read.{read_msg_without_timeout}
use lunnel.Msg.Typed.{KeepsType, fits}
use lunnel.Server.Config.{Health}
use lunnel.Server.Tunnels.{World, Control, ServerConf, ping, send, register}
use lunnel.Server.Tunnels.Routing.{IsRouted, Owned, register-IsRouted}
use lunnel.Server.Loops.{
  Incoming, pinged, incoming, Loops, received, written, ticked, requested, step, IsOrder, here,
  next, serve, serve_round, write_round, write_one,
}
use lunnel.Server.Loops.Sound.{IsSound}
use lunnel.Server.Loops.Invariant.{serve-IsSound, Reaches-IsSound}
use lunnel.Server.Loops.Ends.{quiet, wait, Silent-tick_closes, Run, Run-ends}
use lunnel.Server.Loops.Pings.{AreSpaced, serve-AreSpaced}
use lunnel.Server.Loops.Receipt.{read-incoming}

abbrev web : Msg.Tunnel
web = record {
  public = record { schema = text "http"; host = text "a.b"; port = 80; allow_reallocate = false };
  local = record { schema = text "http"; host = text "c"; port = 0 };
  http_host_rewrite = [];
}

abbrev empty : World
empty = record {
  tunnels =
      λ t. record { tunnel_config = web; listener = none; name = []; ctl = 0; is_closed = true };
  fresh = 0;
  tunnel_map = λ a. none;
  sub_domain_idx = 0;
  listener_closed = λ l. false;
}

empty-IsRouted : IsRouted empty
empty-IsRouted = record {
  leads = λ a t e. absurd (ground arith);
  listed = λ t b o. absurd (omega arith);
}

abbrev bare : Control
bare = record { id = 1; tunnels = λ n. none; write_chan = []; is_done = false }

abbrev control : Control
control = (register (text "t") web none bare empty).0

abbrev world : World
world = (register (text "t") web none bare empty).1

control-Owned : Owned control world
unfolding register
control-Owned name t e = ground arith

control-IsOrder : IsOrder (0 ∷ []) control.tunnels
unfolding register
control-IsOrder = record { every = λ name t e. ground arith; only = ((text "t", refl), tt) }

abbrev health : Health
health = record { interval = pos 20; time_out = pos 50 }

abbrev conf : ServerConf
conf = record { server_domain = text "d.e"; http_port = 80; https_port = 443 }

abbrev no_listen : Text → ℕ → World → Option (ℕ × ℕ)
no_listen schema port w = none

-- A ping comes in at 200.
Reaches-IsSound_example :
    IsSound (step health no_listen conf (received 200 pinged) (serve 100 control world))
unfolding serve register
Reaches-IsSound_example =
    Reaches-IsSound health no_listen conf (serve 100 control world) _
      (serve-IsSound 100 control world (omega arith)
        (register-IsRouted (text "t") web none bare empty empty-IsRouted refl) control-Owned)
      (next here (received 200 pinged) refl)

-- A tick at 20 seconds, whose ping is written at 21.
serve-AreSpaced_example : AreSpaced 10_000_000_000 100 ((21_000_000_000, ping) ∷ [])
unfolding serve register step serve_round send write_round write_one is_timed_out nanos elapsed
    too_soon
serve-AreSpaced_example =
    serve-AreSpaced health no_listen conf 20 100 control world _ refl (omega arith) (
      next (next here (ticked 20_000_000_000 (0 ∷ [])) (refl, control-IsOrder))
        (written 21_000_000_000 true) refl)

-- Nothing comes in for a minute; meanwhile a pipe is asked for.
Silent-tick_closes_example :
    let m = step health no_listen conf requested (serve 100 control world) in
    let n = step health no_listen conf (ticked 60_000_000_000 (0 ∷ [])) m in
    (n.ctl.is_done ≡ true)
    × (n.serving ≡ false)
    × (n.conn_closed ≡ true)
    × ((name : Text) (t : ℕ) → m.ctl.tunnels name ≡ some t → (n.world.tunnels t).is_closed ≡ true)
unfolding serve register step send
Silent-tick_closes_example =
    Silent-tick_closes health no_listen conf 50 60_000_000_000 (0 ∷ []) (serve 100 control world) _
      refl (omega arith) (omega arith) (omega arith) (wait quiet requested refl) control-IsOrder

done_start : IsSound (serve 100 (record control { is_done = true }) world)
unfolding register
done_start =
    serve-IsSound 100 (record control { is_done = true }) world (omega arith)
      (register-IsRouted (text "t") web none bare empty empty-IsRouted refl) control-Owned

Run-ends_example :
    let l = serve 100 (record control { is_done = true }) world in
    (k : ℕ) × (m : Loops) × (k ≤ 3)
    × Run health no_listen conf l k m
    × (m.receiving ≡ false)
    × (m.writing ≡ false)
    × (m.serving ≡ false)
    × (m.conn_closed ≡ true)
    × ((l.serving ≡ false)
        ⊎ ((name : Text) (t : ℕ)
            → l.ctl.tunnels name ≡ some t
            → (m.world.tunnels t).is_closed ≡ true))
unfolding register serve
Run-ends_example =
    Run-ends health no_listen conf (0 ∷ []) (serve 100 (record control { is_done = true }) world)
      done_start refl control-IsOrder

-- A stand-in for encoding/json that knows messages of an error only.
abbrev unmarshal : ℕ → List ℕ → Option Body
unmarshal t xs = if t == 9 then some (error xs) else none

unmarshal-KeepsType : KeepsType unmarshal
unfolding fits
unmarshal-KeepsType t xs b e = elim (Bool-cases (t == 9)) [
  | inl nine ↦ subst (λ o. fits t o ≡ true) (rw nine at e) nine
  | inr other ↦ absurd (ground (arith, e, other))
]

abbrev conn : Conn
conn = record {
  incoming = chunk (7 ∷ 0 ∷ 0 ∷ 0 ∷ []) ∷ [];
  sent = [];
  accepts = 0;
  read_deadline = none;
  write_deadline = none;
}

read-incoming_example :
    (i : Incoming) × (incoming (read_msg_without_timeout unmarshal conn).0 ≡ some i)
read-incoming_example = read-incoming unmarshal conn unmarshal-KeepsType
