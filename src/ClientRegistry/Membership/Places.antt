-- ===== src/ClientRegistry/Membership/Places.antt =====
-- src/client_registry.c: the places of the login queue and the entries of the array.
use jeux_game_server.Prelude.{
  ℕ, zero, suc, ◌+◌, ◌<◌, ◌≡◌, ◌∙◌, Bool, true, Option, some, List, arith, length, length-set, take,
}
use jeux_game_server.Game.{Status}
use jeux_game_server.World.{Ptr, World, Run, ok, fault, blocked, ClientRegistry}
use jeux_game_server.ClientRegistry.{registered, max_clients, creg_init}
use jeux_game_server.ClientRegistry.Membership.{add_entry, creg_register, creg_unregister}
use jeux_game_server.ClientRegistry.Membership.Entries.{InArray, contains}
use jeux_game_server.ClientRegistry.Membership.Registering.{
  Registering, full, shut_down, waits, entered, creg_register-Registering, entered_as,
}
use jeux_game_server.ClientRegistry.Membership.Unregistering.{
  Left, Unregistering, locked, absent, left, logout_faults, logout_blocks,
  creg_unregister-Unregistering,
}

-- Every place of the array is taken by an entry or offered by the login queue.
pub record PlacesValid (r : ClientRegistry) : Type 0 where
  pub array : length r.clients ≡ max_clients
  pub places : r.length + r.login_queue ≡ max_clients

-- The registry is valid wherever a call returns.
abbrev pub EndsValid : {A : Type 0} → Run A → Type 0
EndsValid (ok a w) = PlacesValid w.client_registry
EndsValid fault = Unit {0}
EndsValid blocked = Unit {0}

pub creg_init-PlacesValid :
    (c m s q : Bool) (r : ClientRegistry) → creg_init c m s q ≡ some r → PlacesValid r
unfolding creg_init
creg_init-PlacesValid c m s q r e = ground arith

entered-PlacesValid :
    (r r' : ClientRegistry) (c : Option Ptr)
    → PlacesValid r
    → 0 < r.login_queue
    → r' ≡ entered_as r c
    → PlacesValid r'
unfolding add_entry
entered-PlacesValid r r' c v q e =
    rw e (record {
      array = length-set r.clients r.length c ∙ v.array;
      places = omega (arith, v.places);
    })

Registering-valid :
    (w : World) (r : Run (Option Ptr))
    → PlacesValid w.client_registry
    → Registering w r
    → EndsValid r
Registering-valid w r v (full _) = v
Registering-valid w r v (shut_down _) = v
Registering-valid w r v (waits _) = tt
Registering-valid w r v (entered c l s q e) = entered-PlacesValid w.client_registry _ c v q e

contains-nonempty :
    (p : Ptr) (n : ℕ) (xs : List (Option Ptr)) → contains p (take n xs) ≡ true → 0 < n
contains-nonempty p zero xs e = cc
contains-nonempty p (suc n) xs e = omega arith

Left-PlacesValid :
    (r r' : ClientRegistry) (p : Ptr)
    → PlacesValid r
    → contains p (registered r) ≡ true
    → Left r r' p
    → PlacesValid r'
Left-PlacesValid r r' p v held l = record {
  array = l.array ∙ v.array;
  places =
      omega (arith, l.length, l.login_queue, v.places, contains-nonempty p r.length r.clients held);
}

Unregistering-valid :
    (w : World) (p : Ptr) (r : Run Status)
    → PlacesValid w.client_registry
    → Unregistering w p r
    → EndsValid r
Unregistering-valid w p r v (locked _) = tt
Unregistering-valid w p r v (absent _) = record { array = v.array; places = v.places }
Unregistering-valid w p r v (left held l) = Left-PlacesValid w.client_registry _ p v held l
Unregistering-valid w p r v (logout_faults _) = tt
Unregistering-valid w p r v (logout_blocks _) = tt

pub PlacesValid-InArray : (r : ClientRegistry) → PlacesValid r → InArray r
PlacesValid-InArray r v = omega (arith, v.places, v.array)

-- For a registry with 64 places, each taken by an entry or offered by the login queue:
-- registering any connection and unregistering any client keep that wherever they return, so that
-- the array never overflows.
pub places-valid :
    (depth : ℕ) (w : World)
    → PlacesValid w.client_registry
    → ((fd : ℕ) → EndsValid (creg_register fd w))
      × ((p : Ptr) → EndsValid (creg_unregister depth (some p) w))
places-valid depth w v = (
  λ fd. Registering-valid w _ v (creg_register-Registering w fd),
  λ p.
      Unregistering-valid w p _ v
        (creg_unregister-Unregistering depth w p (PlacesValid-InArray w.client_registry v)),
)
