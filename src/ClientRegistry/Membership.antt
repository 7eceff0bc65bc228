-- ===== src/ClientRegistry/Membership.antt =====
-- src/client_registry.c: creg_register and creg_unregister.
pub mod Entries
pub mod Registering
pub mod Entering
pub mod Unregistering
pub mod Places
pub mod Agreeing
use jeux_game_server.Prelude.{
  ℕ, zero, suc, ◌+◌, ◌-◌, ◌≡◌, Bool, true, false, not, Option, none, some, List, [], ◌∷◌, ltb, leb,
  if◌then◌else◌, ◌==◌, get_or, set,
}
use jeux_game_server.Game.{Status, success, failure}
use jeux_game_server.World.{
  Ptr, ClientRegistry, World, Run, M, pure, ◌>>=◌, ◌>>◌, block, and_then, read, write,
}
use jeux_game_server.Client.Object.{client_create, client_unref}
use jeux_game_server.Client.Session.{client_logout}
use jeux_game_server.ClientRegistry.{
  max_clients, set_registry, get_registry, lock_registry, unlock_registry,
}

-- sem_wait(&cr->login_queue)
wait_login_queue : M (Unit {0})
wait_login_queue = do
  r ← get_registry
  if r.login_queue == 0 then block else set_registry (record r { login_queue = r.login_queue - 1 })

-- The registry with an entry (NULL where client_create fails) in its next place.
unfoldable pub add_entry : ClientRegistry → Option Ptr → ClientRegistry
add_entry r client = record r { clients = set r.clients r.length client; length = r.length + 1 }

unfoldable pub creg_register : ℕ → M (Option Ptr)
unfolding wait_login_queue
creg_register fd = do
  r ← get_registry
  if leb max_clients r.length then pure none else if r.no_new then pure none else do
    wait_login_queue
    lock_registry
    client ← client_create fd
    s ← get_registry
    set_registry (add_entry s client)
    unlock_registry
    pure client

-- cr->clients[i] == client
unfoldable pub is_entry : Option Ptr → Ptr → Bool
is_entry none p = false
is_entry (some q) p = q == p

-- The search for a client: for (i = 0; i < length; i++), with the rounds that are left.
unfoldable pub find_entry : ℕ → ℕ → List (Option Ptr) → Ptr → Option ℕ
find_entry zero i clients p = none
find_entry (suc k) i clients p =
    let rest = find_entry k (i + 1) clients p in
    if is_entry (get_or clients i none) p then some i else rest

-- for (j = i; j < length - 1; j++) clients[j] = clients[j + 1], with the rounds that are left.
unfoldable pub shift : ℕ → ℕ → List (Option Ptr) → List (Option Ptr)
shift zero j clients = clients
shift (suc k) j clients = shift k (j + 1) (set clients j (get_or clients (j + 1) none))

-- The array once the client at `i` is taken out.
unfoldable pub remove_entry : ClientRegistry → ℕ → List (Option Ptr)
remove_entry r i = shift (r.length - 1 - i) i (set r.clients i none)

-- The branch for a client that is found at `i`.
unfoldable pub unregister_at : ℕ → Ptr → ℕ → M Status
unregister_at depth client i = do
  r ← get_registry
  set_registry (record r { clients = remove_entry r i })
  _ ← client_logout depth client
  client_unref (client_logout depth) client
  s ← get_registry
  let left = s.length - 1
  set_registry (record s {
    length = left;
    login_queue = s.login_queue + 1;
    sem = if left == 0 then s.sem + 1 else s.sem;
  })
  unlock_registry
  pure success

unfoldable pub creg_unregister : ℕ → Option Ptr → M Status
unfolding unregister_at
creg_unregister depth none = pure failure
creg_unregister depth (some client) = do
  lock_registry
  r ← get_registry
  elim (find_entry r.length 0 r.clients client) [
    | none ↦ do unlock_registry; pure failure
    | some i ↦ unregister_at depth client i
  ]
