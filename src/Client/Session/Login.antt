-- ===== src/Client/Session/Login.antt =====
-- src/client.c: how client_login ends for a client that is logged out.
use jeux_game_server.Prelude.{
  ℕ, ◌+◌, ◌-◌, ◌<◌, ◌≡◌, refl, sym, ap, ◌∙◌, inl, inr, ◌⊎◌, true, false, Option, none, some, List,
  [], ◌==◌, arith, Bool-cases,
}
use jeux_game_server.Prelude.Int.{ℤ, pos}
use jeux_game_server.Game.{Status, success, failure}
use jeux_game_server.Game.Text.{Text}
use jeux_game_server.World.{
  Ptr, Player, Client, ClientRegistry, Semaphores, client_logged_in, client_logged_out, World, Run,
  ok, fault, blocked, load_client, sem_wait, sem_post,
}
use jeux_game_server.Client.Session.{login_free, client_login}
use jeux_game_server.ClientRegistry.{registered}
use jeux_game_server.ClientRegistry.Players.{players_of, In, one, Watched}
use jeux_game_server.Client.Session.Searching.{
  any_named, searched, login_free-Watched, Enters, login_as-Enters,
}

abbrev name_in : Option Player → Text
name_in none = []
name_in (some x) = x.name

-- The name of the player at an address.
abbrev pub name_of : World → Ptr → Text
name_of w p = name_in (w.players p)

abbrev refs_in : Option Player → ℕ
refs_in none = 0
refs_in (some x) = x.ref_count

-- The references to the player at an address.
abbrev pub refs_of : World → Ptr → ℕ
refs_of w p = refs_in (w.players p)

abbrev rating_in : Option Player → ℤ
rating_in none = pos 0
rating_in (some x) = x.rating

-- The rating of the player at an address.
abbrev pub rating_of : World → Ptr → ℤ
rating_of w p = rating_in (w.players p)

-- The players of the clients that are registered.
abbrev pub logged_players : World → List Ptr
logged_players w = players_of w.clients (registered w.client_registry)

-- The player that logs in, and those of the registered clients.
abbrev pub Known : World → Ptr → Ptr → Type 0
Known w player p = (p ≡ player) ⊎ In p (logged_players w)

-- A login that nothing is in the way of.
pub record CanLogIn (w : World) (client player : Ptr) (c : Client) : Type 0 where
  pub at : w.clients client ≡ some c
  pub unlocked : c.lock ≡ false
  pub out : c.logged_in ≡ client_logged_out
  pub sem : 0 < w.semaphores.login
  pub mutex : w.client_registry.mutex ≡ false
  pub grants : w.grants ≡ []
  pub entries :
      (p : Ptr) → In (some p) (registered w.client_registry) → (d : Client) × (w.clients p ≡ some d)
  pub held :
      (p : Ptr) → Known w player p → (x : Player) × (w.players p ≡ some x) × (0 < x.ref_count)

-- How the login ends: it is refused for the name, or the client has the player with one reference
-- more.
abbrev pub LogsIn : World → Ptr → Ptr → Client → Run Status → Type 0
LogsIn w client player c (ok failure w') =
    (any_named (name_of w) (logged_players w) (name_of w player) ≡ true)
    × (w'.clients ≡ w.clients)
    × (w'.semaphores ≡ w.semaphores)
    × (w'.client_registry ≡ w.client_registry)
    × Watched (Known w player) (name_of w) (refs_of w) (rating_of w) w'.players (λ q. 0)
LogsIn w client player c (ok success w') =
    (any_named (name_of w) (logged_players w) (name_of w player) ≡ false)
    × (w'.clients client
        ≡ some (record c { lock = false; player = some player; logged_in = client_logged_in }))
    × ((q : Ptr) → (client == q) ≡ false → w'.clients q ≡ w.clients q)
    × (w'.semaphores ≡ w.semaphores)
    × (w'.client_registry ≡ w.client_registry)
    × Watched (Known w player) (name_of w) (refs_of w) (rating_of w) w'.players (one player)
LogsIn w client player c fault = ⊥
LogsIn w client player c blocked = ⊥

-- The world once the semaphore is taken.
abbrev one_login : World → World
one_login w = record w { semaphores = record w.semaphores { login = w.semaphores.login - 1 } }

login-runs :
    (w : World) (client player : Ptr) (c : Client)
    → CanLogIn w client player c
    → client_login client player w ≡ login_free client player (one_login w)
unfolding client_login sem_wait load_client
login-runs w client player c r = rw (sem, r.at, r.out) refl
  where
    sem : (w.semaphores.login == 0) ≡ false
    sem = ground (arith, r.sem)

Known-Watched :
    (w : World) (client player : Ptr) (c : Client)
    → CanLogIn w client player c
    → Watched (Known w player) (name_of w) (refs_of w) (rating_of w) w.players (λ q. 0)
Known-Watched w client player c r p i =
    let (x, a, b) = r.held p i in (x, a, rw a refl, rw a (omega arith), rw a b, rw a refl)

posted : (s : Semaphores) → 0 < s.login → record s { login = (s.login - 1) + 1 } ≡ s
posted s h = ap (λ n. record s { login = n }) (omega arith)

unlocked_again : (r : ClientRegistry) → r.mutex ≡ false → record r { mutex = false } ≡ r
unlocked_again r m = ap (λ b. record r { mutex = b }) (sym m)

entered-LogsIn :
    (w v : World) (client player : Ptr) (c : Client) (r : Run Status)
    → any_named (name_of w) (logged_players w) (name_of w player) ≡ false
    → v.clients ≡ w.clients
    → record v.semaphores { login = v.semaphores.login + 1 } ≡ w.semaphores
    → v.client_registry ≡ w.client_registry
    → Enters (Known w player) (name_of w) (refs_of w) (rating_of w) v client player c r
    → LogsIn w client player c r
entered-LogsIn w v client player c (ok success w') n e s g (a, b, d, f, h) =
    (n, a, (λ q o. b q o ∙ ap (λ m. m q) e), d ∙ s, f ∙ g, h)
entered-LogsIn w v client player c (ok failure w') n e s g h = absurd h
entered-LogsIn w v client player c fault n e s g h = absurd h
entered-LogsIn w v client player c blocked n e s g h = absurd h

-- Where the client is logged out and not locked, CLIENT_LOGIN_SEM and the registry are free,
-- memory can be had, the registered clients are allocated, and their players and the one that
-- logs in have a reference: client_login always returns. It fails exactly when a registered
-- client has a player with the name, and leaves the clients and the counts of these players as
-- they were; otherwise the client, and no other, is logged in as the player, which has exactly
-- one reference more, and the others of these players have as many as before. On both branches
-- the semaphores and the registry are as they were, and none of these players is renamed.
pub client_login-LogsIn :
    (w : World) (client player : Ptr) (c : Client)
    → CanLogIn w client player c
    → LogsIn w client player c (client_login client player w)
unfolding sem_post
client_login-LogsIn w client player c r =
    let (h, e, u) =
      login_free-Watched (Known w player) (name_of w) (refs_of w) (rating_of w) (one_login w) client
        player r.mutex r.grants (Known-Watched w client player c r) (inl refl) (λ p i. inr i)
        r.entries in
    rw (login-runs w client player c r, e)
      (elim (Bool-cases (any_named (name_of w) (logged_players w) (name_of w player))) [
        | inl t ↦
            rw t (t, refl, posted w.semaphores r.sem, unlocked_again w.client_registry r.mutex, u)
        | inr f ↦ rw f (
            entered-LogsIn w
              (searched (Known w player) (name_of w) (refs_of w) (rating_of w) (one_login w) h)
              client player c _ f refl (posted w.semaphores r.sem)
              (unlocked_again w.client_registry r.mutex)
              (login_as-Enters (Known w player) (name_of w) (refs_of w) (rating_of w)
                (searched (Known w player) (name_of w) (refs_of w) (rating_of w) (one_login w) h)
                client player c r.at r.unlocked u (inl refl)))
      ])
