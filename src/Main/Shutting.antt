-- ===== src/Main/Shutting.antt =====
-- src/client_registry.c and src/main.c: the shutdown.
use jeux_game_server.Prelude.{ℕ, arith, ◌≡◌, refl, true, false, Option, none, some, List, [], ◌∷◌}
use jeux_game_server.World.{Ptr, Client, World, ok, load_client}
use jeux_game_server.Client.Object.{client_get_fd}
use jeux_game_server.ClientRegistry.{
  registered, lock_registry, unlock_registry, shutdown_loop, creg_shutdown_all,
}
use jeux_game_server.ClientRegistry.Membership.{creg_register}

abbrev pub with_fd : Option Client → List ℕ → List ℕ
with_fd none fds = fds
with_fd (some c) fds = c.fd ∷ fds

-- The descriptors of the clients that a list of entries holds.
abbrev pub descriptors : World → List (Option Ptr) → List ℕ
descriptors w [] = []
descriptors w (none ∷ cs) = descriptors w cs
descriptors w (some p ∷ cs) = with_fd (w.clients p) (descriptors w cs)

-- Every client that a list of entries holds is allocated.
abbrev pub Allocated : World → List (Option Ptr) → Type 0
Allocated w [] = Unit {0}
Allocated w (none ∷ cs) = Allocated w cs
Allocated w (some p ∷ cs) = ((c : Client) × (w.clients p ≡ some c)) × Allocated w cs

-- A list put in front of another in the opposite order.
abbrev pub onto : List ℕ → List ℕ → List ℕ
onto [] done = done
onto (fd ∷ fds) done = onto fds (fd ∷ done)

loop-onto :
    (w : World) (cs : List (Option Ptr)) (done : List ℕ)
    → Allocated w cs
    → shutdown_loop cs (record w { shut = done })
      ≡ ok tt (record w { shut = onto (descriptors w cs) done })
unfolding shutdown_loop client_get_fd load_client
loop-onto w [] done a = refl
loop-onto w (none ∷ cs) done a = loop-onto w cs done a
loop-onto w (some p ∷ cs) done ((c, e), a) = rw e (loop-onto w cs (c.fd ∷ done) a)

-- The registry after a shutdown.
abbrev pub closed_registry : World → World
closed_registry w = record w {
  client_registry = record w.client_registry { no_new = true; mutex = false };
  shut = onto (descriptors w (registered w.client_registry)) w.shut;
}

abbrev refusing : World → World
refusing w = record w { client_registry = record w.client_registry { no_new = true; mutex = true } }

locked :
    (w : World)
    → w.client_registry.mutex ≡ false
    → lock_registry w
      ≡ ok tt (record w { client_registry = record w.client_registry { mutex = true } })
unfolding lock_registry
locked w m = ground arith

-- Where the registry is not locked and its clients are allocated: creg_shutdown_all returns,
-- shuts the connection of each registered client, in order, marks the registry as closed and
-- changes nothing else; and every connection that comes afterwards is refused with nothing
-- changed.
pub creg_shutdown_all-closes :
    (w : World)
    → w.client_registry.mutex ≡ false
    → Allocated w (registered w.client_registry)
    → (creg_shutdown_all w ≡ ok tt (closed_registry w))
      × ((fd : ℕ) → creg_register fd (closed_registry w) ≡ ok none (closed_registry w))
unfolding creg_shutdown_all unlock_registry creg_register
creg_shutdown_all-closes w m a = (
  rw (locked w m, loop-onto (refusing w) (registered w.client_registry) w.shut a) refl,
  λ fd. ground arith,
)
