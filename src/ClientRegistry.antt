-- ===== src/ClientRegistry.antt =====
-- src/client_registry.c, without registering and unregistering.
pub mod Membership
pub mod Stale
pub mod Serving
pub mod Players
use jeux_game_server.Prelude.{
  ℕ, zero, suc, ◌+◌, ◌-◌, ◌≡◌, Bool, true, false, not, Option, none, some, List, [], ◌∷◌, ◌++◌, ltb,
  if◌then◌else◌, take, replicate, text_eq, ◌==◌,
}
use jeux_game_server.Game.Text.{Text}
use jeux_game_server.World.{
  Ptr, Client, ClientRegistry, World, Run, M, pure, ◌>>=◌, ◌>>◌, fail, block, and_then, read, write,
  granted,
}
use jeux_game_server.Player.{player_ref, player_get_name}
use jeux_game_server.Client.Object.{client_ref, client_get_player, client_get_fd}

abbrev pub max_clients : ℕ
max_clients = 64

-- `none` where memory, the mutex or one of the two semaphores cannot be had.
unfoldable pub creg_init : (calloc mutex sem login_queue : Bool) → Option ClientRegistry
creg_init calloc mutex sem login_queue =
    if not calloc
    then none
    else if not mutex
    then none
    else if not sem
    then none
    else if not login_queue
    then none
    else some (record {
      mutex = false;
      sem = 0;
      length = 0;
      no_new = false;
      clients = replicate max_clients none;
      login_queue = max_clients;
    })

abbrev pub set_registry : ClientRegistry → M (Unit {0})
set_registry r = write λ w. record w { client_registry = r }

abbrev pub get_registry : M ClientRegistry
get_registry = read (λ w. w.client_registry)

unfoldable pub lock_registry : M (Unit {0})
lock_registry = do
  r ← get_registry
  if r.mutex then block else set_registry (record r { mutex = true })

unfoldable pub unlock_registry : M (Unit {0})
unlock_registry = do r ← get_registry; set_registry (record r { mutex = false })

-- The entries that the loops visit.
abbrev pub registered : ClientRegistry → List (Option Ptr)
registered r = take r.length r.clients

-- The loop of creg_lookup.
unfoldable pub lookup_loop : List (Option Ptr) → Text → M (Option Ptr)
lookup_loop [] user = pure none
lookup_loop (none ∷ cs) user = lookup_loop cs user
lookup_loop (some c ∷ cs) user = do
  player ← client_get_player (some c)
  elim player [
    | none ↦ lookup_loop cs user
    | some p ↦ do
      name ← player_get_name p
      if text_eq name user then (client_ref c >>= λ q. pure (some q)) else lookup_loop cs user
  ]

unfoldable pub creg_lookup : Text → M (Option Ptr)
creg_lookup user = do
  lock_registry
  r ← get_registry
  found ← lookup_loop (registered r) user
  unlock_registry
  pure found

-- The loop of creg_all_players: each player found is referenced.
unfoldable pub players_loop : List (Option Ptr) → M (List Ptr)
players_loop [] = pure []
players_loop (none ∷ cs) = players_loop cs
players_loop (some c ∷ cs) = do
  player ← client_get_player (some c)
  elim player [
    | none ↦ players_loop cs
    | some p ↦ do q ← player_ref p; rest ← players_loop cs; pure (q ∷ rest)
  ]

-- Where calloc fails the mutex is kept, and NULL is returned.
unfoldable pub creg_all_players : M (Option (List Ptr))
creg_all_players = do
  lock_registry
  given ← granted
  if not given then pure none else do
    r ← get_registry
    players ← players_loop (registered r)
    unlock_registry
    pure (some players)

-- One thread runs at a time here, so that a wait on a semaphore at zero does not return.
unfoldable pub creg_wait_for_empty : M (Unit {0})
creg_wait_for_empty = do
  r ← get_registry
  if not (ltb 0 r.length)
      then pure tt
      else if r.sem == 0
      then block
      else set_registry (record r { sem = r.sem - 1 })

-- The loop of creg_shutdown_all.
unfoldable pub shutdown_loop : List (Option Ptr) → M (Unit {0})
shutdown_loop [] = pure tt
shutdown_loop (none ∷ cs) = shutdown_loop cs
shutdown_loop (some c ∷ cs) = do
  fd ← client_get_fd c
  write λ w. record w { shut = fd ∷ w.shut }
  shutdown_loop cs

unfoldable pub creg_shutdown_all : M (Unit {0})
creg_shutdown_all = do
  lock_registry
  r ← get_registry
  set_registry (record r { no_new = true })
  shutdown_loop (registered r)
  unlock_registry
