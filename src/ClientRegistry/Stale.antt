-- ===== src/ClientRegistry/Stale.antt =====
-- src/client_registry.c: creg_wait_for_empty after a registry has been empty once.
use jeux_game_server.Prelude.{
  ℕ, ◌+◌, ◌-◌, ◌≡◌, refl, ap, ◌∙◌, Option, none, some, arith, ◌==◌, if◌then◌else◌,
}
use jeux_game_server.Game.{Status, success, failure}
use jeux_game_server.World.{Ptr, ClientRegistry, World, Run, ok, fault, blocked}
use jeux_game_server.ClientRegistry.{creg_wait_for_empty}
use jeux_game_server.ClientRegistry.Membership.{add_entry, creg_register, creg_unregister}
use jeux_game_server.ClientRegistry.Membership.Entries.{InArray}
use jeux_game_server.ClientRegistry.Membership.Registering.{
  Registering, full, shut_down, waits, entered, creg_register-Registering, entered_as,
}
use jeux_game_server.ClientRegistry.Membership.Unregistering.{
  Left, Unregistering, locked, absent, left, logout_faults, logout_blocks,
  creg_unregister-Unregistering,
}

-- The registry after a client has left, and after one has entered.
abbrev LeftBy : World → Ptr → Run Status → Type 0
LeftBy w client (ok success w') = Left w.client_registry w'.client_registry client
LeftBy w client (ok failure w') = Unit {0}
LeftBy w client fault = Unit {0}
LeftBy w client blocked = Unit {0}

abbrev EnteredBy : World → Run (Option Ptr) → Type 0
EnteredBy w (ok none w') = Unit {0}
EnteredBy w (ok (some p) w') = w'.client_registry ≡ entered_as w.client_registry (some p)
EnteredBy w fault = Unit {0}
EnteredBy w blocked = Unit {0}

Unregistering-LeftBy :
    (w : World) (client : Ptr) (r : Run Status) → Unregistering w client r → LeftBy w client r
Unregistering-LeftBy w client r (locked e) = tt
Unregistering-LeftBy w client r (absent e) = tt
Unregistering-LeftBy w client r (left e l) = l
Unregistering-LeftBy w client r (logout_faults e) = tt
Unregistering-LeftBy w client r (logout_blocks e) = tt

Registering-EnteredBy : (w : World) (r : Run (Option Ptr)) → Registering w r → EnteredBy w r
Registering-EnteredBy w r (full l) = tt
Registering-EnteredBy w r (shut_down n) = tt
Registering-EnteredBy w r (waits b) = tt
Registering-EnteredBy w r (entered none l n q e) = tt
Registering-EnteredBy w r (entered (some p) l n q e) = e

wait-stale :
    (w : World) (n : ℕ)
    → w.client_registry.length ≡ 1
    → w.client_registry.sem ≡ n + 1
    → creg_wait_for_empty w
      ≡ ok tt (record w { client_registry = record w.client_registry { sem = n } })
unfolding creg_wait_for_empty
wait-stale w n l s = ground arith

-- Where the one client of a registry unregisters, and another then registers: creg_wait_for_empty
-- returns, while that client is registered, since the semaphore still has the post of the first
-- one's leaving.
pub creg_wait_for_empty-returns :
    (depth : ℕ) (w w1 w2 : World) (client next : Ptr) (fd : ℕ)
    → InArray w.client_registry
    → w.client_registry.length ≡ 1
    → creg_unregister depth (some client) w ≡ ok success w1
    → creg_register fd w1 ≡ ok (some next) w2
    → (w2.client_registry.length ≡ 1)
      × (creg_wait_for_empty w2
          ≡ ok tt (record w2 {
            client_registry = record w2.client_registry { sem = w.client_registry.sem };
          }))
unfolding add_entry
creg_wait_for_empty-returns depth w w1 w2 client next fd a one u r =
    let l =
      rw u at (Unregistering-LeftBy w client _ (creg_unregister-Unregistering depth w client a)) in
    let e = rw r at (Registering-EnteredBy w1 _ (creg_register-Registering w1 fd)) in
    let n : w2.client_registry.length ≡ 1 = ap (λ x. x.length) e ∙ omega (arith, l.length, one) in
    (
      n,
      wait-stale w2 w.client_registry.sem n
          (ap (λ x. x.sem) e ∙ l.sem ∙ posted w.client_registry one),
    )
  where
    posted :
        (x : ClientRegistry)
        → x.length ≡ 1
        → (if x.length - 1 == 0 then x.sem + 1 else x.sem) ≡ x.sem + 1
    posted x e = rw e refl
