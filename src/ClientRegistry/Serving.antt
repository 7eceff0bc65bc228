-- ===== src/ClientRegistry/Serving.antt =====
-- src/client_registry.c: the walks over the clients, as a request makes them.
use jeux_game_server.Prelude.{
  ℕ, refl, Bool, true, false, Option, none, some, List, [], ◌∷◌, if◌then◌else◌,
}
use jeux_game_server.Game.Text.{Text}
use jeux_game_server.World.{
  Ptr, World, Run, ok, fault, blocked, M, write, ◌>>=◌, ◌>>◌, ClientRegistry,
}
use jeux_game_server.World.Keeps.{Keeps, Ends, branch}
use jeux_game_server.ClientRegistry.{
  set_registry, get_registry, lock_registry, unlock_registry, lookup_loop, creg_lookup,
  players_loop, creg_all_players, registered, shutdown_loop, creg_shutdown_all,
}
use jeux_game_server.Client.Object.{client_get_fd}
use jeux_game_server.Client.Balance.{granted-Same, player_ref-Same, load_client-Same}
use jeux_game_server.Client.Balance.Locks.{client_ref-Same, player_get_name-Same}
use jeux_game_server.Client.Balance.Parts.{client_get_player-Same}
use jeux_game_server.Client.Serving.{
  Serves, kept, and_serve, serve_done, serve_read, serve_option, serve_rules,
}

-- The mutex alone.
with_mutex :
    (w : World) (b : Bool)
    → Serves w (record w { client_registry = record w.client_registry { mutex = b } })
with_mutex w b = (
  record { lists = λ a. a; op = λ e. e },
  record { clients = refl; length = refl; login_queue = refl },
)

pub lock_registry-Serves : Keeps Serves lock_registry
unfolding lock_registry
lock_registry-Serves = record { run = λ w. locks w w.client_registry.mutex }
  where
    locks :
        (w : World) (b : Bool)
        → Ends Serves w (
            (if b then (λ v. blocked) else set_registry (record w.client_registry { mutex = true }))
              w)
    locks w true = tt
    locks w false = with_mutex w true

pub unlock_registry-Serves : Keeps Serves unlock_registry
unfolding unlock_registry
unlock_registry-Serves = record { run = λ w. with_mutex w false }

lookup_loop-Serves : (cs : List (Option Ptr)) (user : Text) → Keeps Serves (lookup_loop cs user)
unfolding lookup_loop
lookup_loop-Serves [] user = serve_done none
lookup_loop-Serves (none ∷ cs) user = lookup_loop-Serves cs user
lookup_loop-Serves (some c ∷ cs) user =
    and_serve _ _ (kept (client_get_player-Same (some c))) λ player.
      serve_option player _ _ (lookup_loop-Serves cs user) λ p.
        and_serve _ _ (kept (player_get_name-Same p)) λ name.
          branch _ (and_serve _ _ (kept (client_ref-Same c)) λ q. serve_done (some q))
            (lookup_loop-Serves cs user)

pub creg_lookup-Serves : (user : Text) → Keeps Serves (creg_lookup user)
unfolding creg_lookup
creg_lookup-Serves user =
    search (serve_rules, lock_registry-Serves, unlock_registry-Serves, lookup_loop-Serves) depth 20

players_loop-Serves : (cs : List (Option Ptr)) → Keeps Serves (players_loop cs)
unfolding players_loop
players_loop-Serves [] = serve_done []
players_loop-Serves (none ∷ cs) = players_loop-Serves cs
players_loop-Serves (some c ∷ cs) = and_serve _ _ (kept (client_get_player-Same (some c))) λ player.
    serve_option player _ _ (players_loop-Serves cs) λ p.
      and_serve _ _ (kept (player_ref-Same p))
        λ q. and_serve _ _ (players_loop-Serves cs) λ rest. serve_done (q ∷ rest)

pub creg_all_players-Serves : Keeps Serves creg_all_players
unfolding creg_all_players
creg_all_players-Serves = and_serve _ _ lock_registry-Serves λ _.
    and_serve _ _ (kept granted-Same) λ given. branch _ (serve_done none) (
      and_serve _ _ (serve_read (λ w. w.client_registry)) λ r.
        and_serve _ _ (players_loop-Serves (registered r))
          λ players. and_serve _ _ unlock_registry-Serves λ _. serve_done (some players))

shut-Serves : (fd : ℕ) → Keeps Serves (write λ w. record w { shut = fd ∷ w.shut })
shut-Serves fd = record {
  run = λ w. (
    record { lists = λ a. a; op = λ e. e },
    record { clients = refl; length = refl; login_queue = refl },
  );
}

shutdown_loop-Serves : (cs : List (Option Ptr)) → Keeps Serves (shutdown_loop cs)
unfolding shutdown_loop client_get_fd
shutdown_loop-Serves [] = serve_done tt
shutdown_loop-Serves (none ∷ cs) = shutdown_loop-Serves cs
shutdown_loop-Serves (some c ∷ cs) =
    and_serve _ _ (and_serve _ _ (kept (load_client-Same c)) λ x. serve_done x.fd)
      λ fd. and_serve _ _ (shut-Serves fd) λ _. shutdown_loop-Serves cs

-- What is left of creg_shutdown_all once the registry is locked.
shutting_down : M (Unit {0})
shutting_down = do
  r ← get_registry
  set_registry (record r { no_new = true })
  shutdown_loop (registered r)
  unlock_registry

shutting_down-Serves : Keeps Serves shutting_down
unfolding shutting_down
shutting_down-Serves = record { run = λ w. closes w _ ((rest w.client_registry).run (refusing w)) }
  where
    refusing : World → World
    refusing w = record w { client_registry = record w.client_registry { no_new = true } }

    rest :
        (r : ClientRegistry) → Keeps Serves (shutdown_loop (registered r) >>= λ _. unlock_registry)
    rest r = and_serve _ _ (shutdown_loop-Serves (registered r)) λ _. unlock_registry-Serves

    closes : (w : World) (r : Run (Unit {0})) → Ends Serves (refusing w) r → Ends Serves w r
    closes w (ok a v) (g, q) = (
      record { lists = λ l. g.lists l; op = λ e. g.op e },
      record { clients = q.clients; length = q.length; login_queue = q.login_queue },
    )
    closes w fault e = tt
    closes w blocked e = tt

pub creg_shutdown_all-Serves : Keeps Serves creg_shutdown_all
unfolding creg_shutdown_all shutting_down
creg_shutdown_all-Serves = and_serve _ _ lock_registry-Serves λ _. shutting_down-Serves
