-- ===== src/ClientRegistry/Membership/Unregistering.antt =====
-- src/client_registry.c: what creg_unregister does on each of its branches.
use jeux_game_server.Prelude.{
  ℕ, zero, suc, ◌+◌, ◌-◌, ◌≡◌, refl, ap, ◌∙◌, inl, inr, Bool, true, false, Option, none, some, List,
  arith, length, length-set, get_or, set, take, if◌then◌else◌, Bool-cases, ◌==◌,
}
use jeux_game_server.Game.{Status, success, failure}
use jeux_game_server.World.{
  Ptr, World, Run, ok, fault, blocked, M, pure, ◌>>=◌, ◌>>◌, ClientRegistry,
}
use jeux_game_server.World.Keeps.{Keeps, weaken, Ends-then}
use jeux_game_server.Client.Object.{client_unref}
use jeux_game_server.Client.Session.{client_logout}
use jeux_game_server.Client.Outside.{SameOp}
use jeux_game_server.Client.Balance.Parts.{client_unref-Same}
use jeux_game_server.Client.Balance.Logout.{client_logout-Same}
use jeux_game_server.ClientRegistry.{
  registered, get_registry, set_registry, lock_registry, unlock_registry,
}
use jeux_game_server.ClientRegistry.Membership.{
  find_entry, shift, remove_entry, creg_unregister, unregister_at,
}
use jeux_game_server.ClientRegistry.Membership.Entries.{
  InArray, erase, contains, remove_entry-erase,
}

abbrev SameRegistry : World → World → Type 0
SameRegistry w w' = w'.client_registry ≡ w.client_registry

from_same : {A : Type 0} {m : M A} → Keeps SameOp m → Keeps SameRegistry m
from_same k = weaken (λ w w' e. e.1.client_registry) k

-- A registry that a client has left.
pub record Left (r r' : ClientRegistry) (client : Ptr) : Type 0 where
  pub entries : registered r' ≡ erase client (registered r)
  pub array : length r'.clients ≡ length r.clients
  pub length : r'.length ≡ r.length - 1
  pub login_queue : r'.login_queue ≡ r.login_queue + 1
  pub sem : r'.sem ≡ (if r.length - 1 == 0 then r.sem + 1 else r.sem)
  pub no_new : r'.no_new ≡ r.no_new
  pub mutex : r'.mutex ≡ false

abbrev pub with_mutex : World → Bool → World
with_mutex w b = record w { client_registry = record w.client_registry { mutex = b } }

-- How a call of creg_unregister ends. The last two are the ends of a logout that does not return.
pub data Unregistering (w : World) (client : Ptr) : Run Status → Type 0 where
  locked : w.client_registry.mutex ≡ true → Unregistering w client blocked
  absent :
      contains client (registered w.client_registry) ≡ false
      → Unregistering w client (ok failure (with_mutex w false))
  left :
      {w' : World}
      → contains client (registered w.client_registry) ≡ true
      → Left w.client_registry w'.client_registry client
      → Unregistering w client (ok success w')
  logout_faults :
      contains client (registered w.client_registry) ≡ true → Unregistering w client fault
  logout_blocks :
      contains client (registered w.client_registry) ≡ true → Unregistering w client blocked

unregister-locked :
    (depth : ℕ) (w : World) (p : Ptr)
    → w.client_registry.mutex ≡ true
    → creg_unregister depth (some p) w ≡ blocked
unfolding creg_unregister lock_registry
unregister-locked depth w p m = ground arith

unregister-absent :
    (depth : ℕ) (w : World) (p : Ptr)
    → w.client_registry.mutex ≡ false
    → find_entry w.client_registry.length 0 w.client_registry.clients p ≡ none
    → creg_unregister depth (some p) w ≡ ok failure (with_mutex w false)
unfolding creg_unregister lock_registry unlock_registry
unregister-absent depth w p m e = ground arith

unregister-found :
    (depth : ℕ) (w : World) (p : Ptr) (i : ℕ)
    → w.client_registry.mutex ≡ false
    → find_entry w.client_registry.length 0 w.client_registry.clients p ≡ some i
    → creg_unregister depth (some p) w ≡ unregister_at depth p i (with_mutex w true)
unfolding creg_unregister lock_registry
unregister-found depth w p i m e = ground arith

-- The counters and the mutex as creg_unregister leaves them.
abbrev counted_out : ClientRegistry → ClientRegistry
counted_out r = record r {
  length = r.length - 1;
  login_queue = r.login_queue + 1;
  sem = if r.length - 1 == 0 then r.sem + 1 else r.sem;
  mutex = false;
}

-- The registry once the client at `i` has left.
abbrev left_at : ClientRegistry → ℕ → ClientRegistry
left_at r i = record (counted_out r) { clients = remove_entry r i }

length-shift : (k j : ℕ) (xs : List (Option Ptr)) → length (shift k j xs) ≡ length xs
unfolding shift
length-shift zero j xs = refl
length-shift (suc k) j xs =
    length-shift k (j + 1) (set xs j (get_or xs (j + 1) none))
    ∙ length-set xs j (get_or xs (j + 1) none)

left_at-Left :
    (r r' : ClientRegistry) (p : Ptr) (i : ℕ)
    → r' ≡ left_at r i
    → take (r.length - 1) (remove_entry r i) ≡ erase p (registered r)
    → Left r r' p
unfolding remove_entry
left_at-Left r r' p i e h = rw e (record {
  entries = h;
  array = length-shift _ _ _ ∙ length-set r.clients i none;
  length = refl;
  login_queue = refl;
  sem = refl;
  no_new = refl;
  mutex = refl;
})

module _ (depth : ℕ) (w : World) (p : Ptr) (i : ℕ)
    (held : contains p (registered w.client_registry) ≡ true)
    (out : take (w.client_registry.length - 1) (remove_entry w.client_registry i)
      ≡ erase p (registered w.client_registry)) where
  -- What is left once the client is logged out and its reference is dropped.
  leave_registry : M Status
  leave_registry = do
    s ← get_registry
    let left = s.length - 1
    set_registry (record s {
      length = left;
      login_queue = s.login_queue + 1;
      sem = if left == 0 then s.sem + 1 else s.sem;
    })
    unlock_registry
    pure success

  abbrev emptied : World
  emptied = record w {
    client_registry = record w.client_registry {
      mutex = true;
      clients = remove_entry w.client_registry i;
    };
  }

  leave-Unregistering :
      (v : World)
      → v.client_registry ≡ emptied.client_registry
      → Unregistering w p (leave_registry v)
  unfolding leave_registry unlock_registry
  leave-Unregistering v e = left held (left_at-Left w.client_registry _ p i (ap counted_out e) out)

  found-Unregistering : Unregistering w p (unregister_at depth p i (with_mutex w true))
  unfolding unregister_at leave_registry remove_entry
  found-Unregistering =
      Ends-then SameRegistry (Unregistering w p) emptied (client_logout depth p emptied) _
        (logout_faults held) (logout_blocks held)
        (λ s u e.
          Ends-then SameRegistry (Unregistering w p) u (client_unref (client_logout depth) p u)
            (λ _. leave_registry) (logout_faults held) (logout_blocks held)
            (λ _ v d. leave-Unregistering v (d ∙ e))
            ((from_same (client_unref-Same (client_logout depth) (client_logout-Same depth) p)).run
              u))
        ((from_same (client_logout-Same depth p)).run emptied)

-- Where the entries lie within the array: creg_unregister waits while the registry is locked,
-- fails and changes nothing when the client is not registered, and otherwise, if logging the
-- client out returns, takes the first entry of the client out and keeps the others in order,
-- gives one place of the login queue back, and posts the semaphore exactly when the registry is
-- empty.
pub creg_unregister-Unregistering :
    (depth : ℕ) (w : World) (p : Ptr)
    → InArray w.client_registry
    → Unregistering w p (creg_unregister depth (some p) w)
creg_unregister-Unregistering depth w p h = elim (Bool-cases w.client_registry.mutex) [
  | inl m ↦ rw (unregister-locked depth w p m) (locked m)
  | inr m ↦ elim (remove_entry-erase w.client_registry p h) [
    | inl (i, e, held, out) ↦
        rw (unregister-found depth w p i m e) (found-Unregistering depth w p i held out)
    | inr (e, missing) ↦ rw (unregister-absent depth w p m e) (absent missing)
  ]
]
