-- ===== src/Relay/Local.antt =====
-- The local address of a tunnel, as a client's configuration means it, and that `createPipe` of
-- client/clientControl.go dials it.
use lunnel.Base.{◌≡◌, ◌≢◌, ◌⊎◌, refl, true, false, some, ◌++◌, arith, ◌==◌, inl, inr}
use lunnel.Base.Text.{text, decimal}
use lunnel.Msg.{Tunnel}
use lunnel.Client.Tunnels.{Target, dial_target}

-- HTTP and plain TCP go to the port, or to 80 if there is none; HTTPS to the port or to 443, with
-- TLS; a Unix socket has no port; UDP needs one.
pub data IsLocal (t : Tunnel) : Target → Type 0 where
  plain :
      (t.local.schema ≡ text "http") ⊎ (t.local.schema ≡ text "tcp")
      → t.local.port ≢ 0
      → IsLocal t (record {
        network = text "tcp";
        address = t.local.host ++ (text ":" ++ decimal t.local.port);
        with_tls = false;
      })
  plain_default :
      (t.local.schema ≡ text "http") ⊎ (t.local.schema ≡ text "tcp")
      → t.local.port ≡ 0
      → IsLocal t (record {
        network = text "tcp";
        address = t.local.host ++ (text ":" ++ decimal 80);
        with_tls = false;
      })
  secure :
      t.local.schema ≡ text "https"
      → t.local.port ≢ 0
      → IsLocal t (record {
        network = text "tcp";
        address = t.local.host ++ (text ":" ++ decimal t.local.port);
        with_tls = true;
      })
  secure_default :
      t.local.schema ≡ text "https"
      → t.local.port ≡ 0
      → IsLocal t (record {
        network = text "tcp";
        address = t.local.host ++ (text ":" ++ decimal 443);
        with_tls = true;
      })
  socket :
      t.local.schema ≡ text "unix"
      → IsLocal t (record { network = text "unix"; address = t.local.host; with_tls = false })
  datagram :
      t.local.schema ≡ text "udp"
      → t.local.port ≢ 0
      → IsLocal t (record {
        network = text "udp";
        address = t.local.host ++ (text ":" ++ decimal t.local.port);
        with_tls = false;
      })

pub IsLocal-dial_target : (t : Tunnel) (g : Target) → IsLocal t g → dial_target t ≡ some g
unfolding dial_target
IsLocal-dial_target t _ (plain (inl e) p) =
    let has : (t.local.port == 0) ≡ false = ground (arith, p) in rw (e, has) refl
IsLocal-dial_target t _ (plain (inr e) p) =
    let has : (t.local.port == 0) ≡ false = ground (arith, p) in rw (e, has) refl
IsLocal-dial_target t _ (plain_default (inl e) p) = rw (e, p) refl
IsLocal-dial_target t _ (plain_default (inr e) p) = rw (e, p) refl
IsLocal-dial_target t _ (secure e p) =
    let has : (t.local.port == 0) ≡ false = ground (arith, p) in rw (e, has) refl
IsLocal-dial_target t _ (secure_default e p) = rw (e, p) refl
IsLocal-dial_target t _ (socket e) = rw e refl
IsLocal-dial_target t _ (datagram e p) =
    let has : (t.local.port == 0) ≡ false = ground (arith, p) in rw (e, has) refl
