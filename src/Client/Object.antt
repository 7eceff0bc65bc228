-- ===== src/Client/Object.antt =====
-- src/client.c: creating a client, its reference count and its fields.
use jeux_game_server.Prelude.{
  ℕ, zero, suc, ◌+◌, Bool, true, false, not, Option, none, some, List, [], ◌∷◌, ◌==◌, if◌then◌else◌,
}
use jeux_game_server.Game.{Status}
use jeux_game_server.World.{
  Ptr, Client, client_logged_out, client_logged_in, Semaphores, M, pure, ◌>>=◌, ◌>>◌, write, block,
  load_client, store_client, granted, calloc,
}
use jeux_game_server.Player.{drop_count}

-- pthread_mutex_lock and pthread_mutex_unlock on a client's lock.
unfoldable pub lock_client : Ptr → M (Unit {0})
lock_client p = do
  c ← load_client p
  if c.lock then block else store_client p (some (record c { lock = true }))

unfoldable pub unlock_client : Ptr → M (Unit {0})
unlock_client p = do c ← load_client p; store_client p (some (record c { lock = false }))

unfoldable pub client_ref : Ptr → M Ptr
client_ref p = do
  lock_client p
  c ← load_client p
  store_client p (some (record c { ref_count = c.ref_count + 1 }))
  unlock_client p
  pure p

-- `again` is client_logout, which calls this function in turn.
module _ (again : Ptr → M Status) where
  unfoldable pub client_unref : Ptr → M (Unit {0})
  client_unref p = do
    lock_client p
    c ← load_client p
    left ← drop_count c.ref_count
    store_client p (some (record c { ref_count = left }))
    unlock_client p
    if not (left == 0) then pure tt else do
      elim c.logged_in [ client_logged_in ↦ do _ ← again p; pure tt | client_logged_out ↦ pure tt ]
      store_client p none

-- The ten semaphores in their order; what a call of sem_init does to those that are used.
abbrev pub sem_inits : List (Semaphores → Semaphores)
sem_inits =
    (λ s. record s { login = 1 })
    ∷ (λ s. record s { logout = 1 })
    ∷ (λ s. record s { invite = 1 })
    ∷ (λ s. s)
    ∷ (λ s. s)
    ∷ (λ s. s)
    ∷ (λ s. record s { invite_op = 1 })
    ∷ (λ s. s)
    ∷ (λ s. record s { update_elo = 1 })
    ∷ (λ s. s)
    ∷ []

-- The loop of client_create. `is_sem_init` is never set, so it runs for every new client.
unfoldable pub init_semaphores : List (Semaphores → Semaphores) → M Bool
init_semaphores [] = pure true
init_semaphores (f ∷ fs) = do
  given ← granted
  if not given
      then pure false
      else do write λ w. record w { semaphores = f w.semaphores }; init_semaphores fs

-- available_ids[i] = i, for `n` entries from `i` on.
unfoldable pub ids_from : ℕ → ℕ → List (Option ℕ)
ids_from i zero = []
ids_from i (suc n) = some i ∷ ids_from (i + 1) n

abbrev pub initial_client : ℕ → Client
initial_client fd = record {
  lock = false;
  fd = fd;
  ref_count = 0;
  player = none;
  logged_in = client_logged_out;
  available_ids = ids_from 0 100;
  id_usage = 0;
  current_id_size = 100;
  invite_head = [];
}

unfoldable pub client_create : ℕ → M (Option Ptr)
unfolding init_semaphores
client_create fd = do
  ready ← init_semaphores sem_inits
  if not ready then pure none else do
    p ← calloc
    elim p [
      | none ↦ pure none
      | some p ↦ do
        ids ← granted
        if not ids then pure none else do
          mutex ← granted
          if not mutex
              then pure none
              else do store_client p (some (initial_client fd)); q ← client_ref p; pure (some q)
    ]

-- The field is read whether or not the client is logged in.
unfoldable pub client_get_player : Option Ptr → M (Option Ptr)
client_get_player none = pure none
client_get_player (some p) = do c ← load_client p; pure c.player

unfoldable pub client_get_fd : Ptr → M ℕ
client_get_fd p = do c ← load_client p; pure c.fd
