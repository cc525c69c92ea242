-- ===== src/Server/Examples.antt =====
-- A pool with two pipes, and two controls with a tunnel each.
use lunnel.Base.{
  ℕ, ◌≡◌, refl, arith, false, ◌||◌, none, some, [], ◌∷◌, ◌==◌, replicate, if◌then◌else◌, true,
}
use lunnel.Base.Text.{text}
use lunnel.Base.Result.{slice_to}
use lunnel.Base.Int.{pos, ◌-ℤ◌}
use lunnel.Server.Pipes.{
  PipeNode, Control, add_idle_pipe, remove_idle_node, clean, get_idle_fast, close_pipes,
  idle_fast_loop, unlink, unlink_at, link_prev, push_front,
}
use lunnel.Server.Pipes.Segment.{Cells}
use lunnel.Server.Pipes.Pool.{IsPool}
use lunnel.Server.Pipes.CleanIdle.{Cleaned, clean-Cleaned}
use lunnel.Server.Pipes.Tidy.{IsTidy, clean-IsTidy}
use lunnel.Server.Manage.{
  here, next, take, put, start, step, prepare, refill, found, hold, step_at, step_holding,
  sort_pipe,
}
use lunnel.Server.Manage.Invariant.{IsManaged, start-Reaches_IsManaged}
use lunnel.Server.Config.{Config, load_config, decode, secret_key, check_uint}
use lunnel.Server.Config.Complete.{IsComplete, load_config-IsComplete}
use lunnel.Server.Pipes.Shut.{is_in, open_count, close_pipes-closed}

-- Node 1 holds pipe 7, which is idle, before node 0 with pipe 8, which is closed; node 2 holds the
-- busy pipe 9 with one stream.
abbrev node_at : ℕ → PipeNode
node_at a =
    if a == 1
    then record { prev = none; next = some 0; pipe = 7 }
    else if a == 0
    then record { prev = some 1; next = none; pipe = 8 }
    else record { prev = none; next = none; pipe = 9 }

abbrev pool : Control
pool = record {
  nodes = node_at;
  fresh = 3;
  busy_pipes = some 2;
  idle_count = 2;
  idle_pipes = some 1;
  total_pipes = pos 3;
  is_closed = λ p. p == 8;
  num_streams = λ p. if p == 9 then 1 else 0;
}

abbrev busy_cells : Cells
busy_cells = (2, 9) ∷ []

abbrev idle_cells : Cells
idle_cells = (1, 7) ∷ (0, 8) ∷ []

pool-IsPool : IsPool pool busy_cells idle_cells
pool-IsPool = record {
  busy = record { starts = refl; links = (refl, tt); distinct = (refl, tt) };
  idle = record { starts = refl; links = (refl, (refl, tt)); distinct = (refl, (refl, tt)) };
  apart = (refl, tt);
  busy_below = (omega arith, tt);
  idle_below = (omega arith, (omega arith, tt));
  counted = refl;
  room = omega arith;
}

clean-Cleaned_example : Cleaned 1 2 pool (clean 1 2 pool) (9 ∷ []) (7 ∷ 8 ∷ [])
clean-Cleaned_example = clean-Cleaned 1 2 pool busy_cells idle_cells pool-IsPool

clean-IsTidy_example : IsTidy 1 2 (clean 1 2 pool)
clean-IsTidy_example =
    clean-IsTidy 1 2 pool busy_cells idle_cells (omega arith) (omega arith) pool-IsPool

close_pipes-closed_example :
    let d = close_pipes pool in
    ((q : ℕ) → d.is_closed q ≡ (is_in q (7 ∷ 8 ∷ 9 ∷ []) || q == 8))
    × (d.total_pipes ≡ pos 3 -ℤ pos (open_count pool.is_closed (7 ∷ 8 ∷ 9 ∷ [])))
    × (d.idle_pipes ≡ none)
    × (d.busy_pipes ≡ none)
close_pipes-closed_example = close_pipes-closed pool busy_cells idle_cells pool-IsPool

-- The manager starts with pipe 7 in hand, gets pipe 5, and gives pipe 7 away.
start-Reaches_IsManaged_example :
    let m = start 1 2 true pool in IsManaged (step 1 2 (take true) (step 1 2 (put true 5) m))
unfolding start prepare refill found hold get_idle_fast idle_fast_loop remove_idle_node unlink
    unlink_at link_prev step_at step_holding sort_pipe add_idle_pipe push_front
start-Reaches_IsManaged_example =
    start-Reaches_IsManaged 1 2 true pool busy_cells idle_cells _ pool-IsPool
      (next (next here (put true 5) tt) (take true) tt)

-- An empty configuration, from no file.
abbrev blank : Config
blank = record {
  debug = false;
  log_file = [];
  listen_port = pos 0;
  listen_ip = [];
  http_port = 0;
  https_port = 0;
  manage_port = 0;
  server_domain = [];
  aes_secret_key = text "k";
  tls = record { tls_cert = []; tls_key = [] };
  auth_enable = false;
  auth_url = [];
  notify_enable = false;
  notify_url = [];
  notify_key = [];
  dsn = text "d";
  health = record { interval = pos 0; time_out = pos 0 };
  max_idle_pipes = [];
  max_streams = [];
}

abbrev filled : Config
filled = record blank {
  listen_ip = text "0.0.0.0";
  listen_port = pos 8080;
  http_port = 80;
  https_port = 443;
  manage_port = 8081;
  aes_secret_key = replicate 16 1;
  health = record { interval = pos 20; time_out = pos 50 };
  max_idle_pipes = text "5";
  max_streams = text "6";
}

load_config-IsComplete_example : IsComplete filled
unfolding load_config decode secret_key check_uint slice_to
load_config-IsComplete_example =
    load_config-IsComplete (λ t c. none) (λ t c. none) (λ s. replicate 32 1) (λ s. refl) [] [] blank
      filled refl
