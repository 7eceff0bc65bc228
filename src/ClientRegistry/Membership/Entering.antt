-- ===== src/ClientRegistry/Membership/Entering.antt =====
-- src/client_registry.c: the client that creg_register makes and where it puts it.
use jeux_game_server.Prelude.{
  ℕ, ◌+◌, ◌-◌, ◌≤◌, ◌<◌, ◌≡◌, refl, ◌⊎◌, inl, inr, true, false, Option, none, some, [], ◌∷◌, ◌++◌,
  arith, length, length-set, leb, Bool-cases,
}
use jeux_game_server.World.{
  Ptr, Client, client_logged_out, World, Run, ok, blocked, calloc, granted, load_client,
  store_client, update,
}
use jeux_game_server.World.Changing.{same_pointer, Holds}
use jeux_game_server.Client.Object.{
  lock_client, unlock_client, client_create, client_ref, init_semaphores, initial_client,
}
use jeux_game_server.Client.Ids.Entries.{IdsValid, length-ids_from, ids_from-Own, taken-ids_from}
use jeux_game_server.ClientRegistry.{max_clients, registered, unlock_registry}
use jeux_game_server.ClientRegistry.Membership.{add_entry, creg_register}
use jeux_game_server.ClientRegistry.Membership.Entries.{registered-add_entry}
use jeux_game_server.ClientRegistry.Membership.Registering.{
  enter, locked_in, register-full, register-shut, register-blocks, register-enters, leb-false,
  leb-true, zero-cases,
}

-- A client of a connection that nobody has used: logged out, with one reference, all its 100 IDs
-- free and no invitation.
pub record IsNew (fd : ℕ) (x : Client) : Type 0 where
  pub descriptor : x.fd ≡ fd
  pub ref_count : x.ref_count ≡ 1
  pub player : x.player ≡ none
  pub logged_in : x.logged_in ≡ client_logged_out
  pub unlocked : x.lock ≡ false
  pub ids : IdsValid x
  pub id_usage : x.id_usage ≡ 0
  pub size : x.current_id_size ≡ 100
  pub invite_head : x.invite_head ≡ []

-- The world in which a new client has entered: it is the entry after the others.
pub record Entered (fd : ℕ) (w w' : World) : Type 0 where
  pub client : (x : Client) × IsNew fd x × Holds w'.clients w.clients w.fresh x
  pub entries : registered w'.client_registry ≡ registered w.client_registry ++ some w.fresh ∷ []
  pub array : length w'.client_registry.clients ≡ length w.client_registry.clients
  pub length : w'.client_registry.length ≡ w.client_registry.length + 1
  pub login_queue : w'.client_registry.login_queue ≡ w.client_registry.login_queue - 1
  pub mutex : w'.client_registry.mutex ≡ false
  pub no_new : w'.client_registry.no_new ≡ w.client_registry.no_new
  pub sem : w'.client_registry.sem ≡ w.client_registry.sem
  pub semaphores :
      w'.semaphores ≡ record { login = 1; logout = 1; invite = 1; invite_op = 1; update_elo = 1 }
  pub players : w'.players ≡ w.players
  pub invitations : w'.invitations ≡ w.invitations
  pub games : w'.games ≡ w.games
  pub sent : w'.sent ≡ w.sent

-- How a call of creg_register ends.
pub data Registers (fd : ℕ) (w : World) : Run (Option Ptr) → Type 0 where
  refused :
      (max_clients ≤ w.client_registry.length) ⊎ (w.client_registry.no_new ≡ true)
      → Registers fd w (ok none w)
  waits :
      w.client_registry.length < max_clients
      → w.client_registry.no_new ≡ false
      → (w.client_registry.login_queue ≡ 0) ⊎ (w.client_registry.mutex ≡ true)
      → Registers fd w blocked
  enters :
      {w' : World}
      → w.client_registry.length < max_clients
      → w.client_registry.no_new ≡ false
      → 0 < w.client_registry.login_queue
      → w.client_registry.mutex ≡ false
      → Entered fd w w'
      → Registers fd w (ok (some w.fresh) w')

-- What client_create leaves of a world in which every request is met.
abbrev made_in : ℕ → World → World
made_in fd w = record w {
  clients =
      update
        (update
          (update (update w.clients w.fresh (some (initial_client fd))) w.fresh
            (some (record (initial_client fd) { lock = true })))
          w.fresh (some (record (initial_client fd) { lock = true; ref_count = 1 })))
        w.fresh (some (record (initial_client fd) { ref_count = 1 }));
  fresh = w.fresh + 1;
  semaphores = record { login = 1; logout = 1; invite = 1; invite_op = 1; update_elo = 1 };
  grants = [];
}

client_create-runs :
    (fd : ℕ) (w : World) → w.grants ≡ [] → client_create fd w ≡ ok (some w.fresh) (made_in fd w)
unfolding client_create init_semaphores calloc granted store_client client_ref lock_client
    unlock_client load_client
client_create-runs fd w m =
    rw (m, same_pointer w.fresh, same_pointer w.fresh, same_pointer w.fresh) refl

-- What creg_register leaves of a world in which every request is met.
abbrev entered_in : ℕ → World → World
entered_in fd w = record (made_in fd (locked_in w)) {
  client_registry = record (add_entry (locked_in w).client_registry (some w.fresh)) {
    mutex = false;
  };
}

enter-runs :
    (fd : ℕ) (w : World)
    → w.grants ≡ []
    → enter fd (locked_in w) ≡ ok (some w.fresh) (entered_in fd w)
unfolding enter unlock_registry add_entry
enter-runs fd w m = rw (client_create-runs fd (locked_in w) m) refl

entered_in-Entered :
    (fd : ℕ) (w : World)
    → w.client_registry.length < length w.client_registry.clients
    → Entered fd w (entered_in fd w)
unfolding add_entry
entered_in-Entered fd w room = record {
  client = (
    record (initial_client fd) { ref_count = 1 },
    record {
      descriptor = refl;
      ref_count = refl;
      player = refl;
      logged_in = refl;
      unlocked = refl;
      ids = record {
        size = length-ids_from 0 100;
        own = ids_from-Own 0 100;
        usage = taken-ids_from 0 100;
        room = omega arith;
      };
      id_usage = refl;
      size = refl;
      invite_head = refl;
    },
    (rw (same_pointer w.fresh) refl, λ q n. rw n refl),
  );
  entries = (registered-add_entry w.client_registry (some w.fresh) room).0;
  array = length-set w.client_registry.clients w.client_registry.length (some w.fresh);
  length = refl;
  login_queue = refl;
  mutex = refl;
  no_new = refl;
  sem = refl;
  semaphores = refl;
  players = refl;
  invitations = refl;
  games = refl;
  sent = refl;
}

-- Where every request for memory, a mutex or a semaphore is met, for a registry whose array has
-- its 64 places: creg_register refuses a client when the registry is full or shut down and
-- changes nothing then; it waits when the login queue has no place or the registry is locked; and
-- otherwise it returns a new client at an address of its own, logged out, with one reference, 100
-- free IDs and no invitation. That client is then the registry's last entry, after those that
-- were there; the registry counts one entry more and one place of the queue less and is unlocked;
-- the five semaphores are set to 1; and the other clients, the players, the invitations, the
-- games and what was sent are as they were.
pub creg_register-Registers :
    (w : World) (fd : ℕ)
    → w.grants ≡ []
    → length w.client_registry.clients ≡ max_clients
    → Registers fd w (creg_register fd w)
creg_register-Registers w fd m a = elim (Bool-cases (leb max_clients w.client_registry.length)) [
  | inl e ↦ rw (register-full w fd e) (refused (inl (leb-true _ _ e)))
  | inr e ↦ elim (Bool-cases w.client_registry.no_new) [
    | inl s ↦ rw (register-shut w fd e s) (refused (inr s))
    | inr s ↦ elim (zero-cases w.client_registry.login_queue) [
      | inl q ↦ rw (register-blocks w fd e s (inl q)) (waits (leb-false _ _ e) s (inl q))
      | inr q ↦ elim (Bool-cases w.client_registry.mutex) [
        | inl k ↦ rw (register-blocks w fd e s (inr k)) (waits (leb-false _ _ e) s (inr k))
        | inr k ↦
            rw (register-enters w fd e s q k, enter-runs fd w m)
              (enters (leb-false _ _ e) s q k
                (entered_in-Entered fd w (omega (arith, leb-false _ _ e, a))))
      ]
    ]
  ]
]
