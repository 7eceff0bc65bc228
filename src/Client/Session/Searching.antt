-- ===== src/Client/Session/Searching.antt =====
-- src/client.c: the search of client_login for a player's name, and what follows it.
use jeux_game_server.Prelude.{
  ℕ, ◌+◌, ◌≡◌, refl, ap, inl, inr, Bool, true, false, Option, some, List, [], ◌∷◌, ◌==◌, ◌||◌,
  if◌then◌else◌, arith, text_eq,
}
use jeux_game_server.Prelude.Int.{ℤ}
use jeux_game_server.Game.{Status, success, failure}
use jeux_game_server.Game.Text.{Text}
use jeux_game_server.World.{
  Ptr, Player, Client, client_logged_in, World, Run, ok, fault, blocked, pure, ◌>>◌, load_player,
  load_client, store_client, update, sem_post,
}
use jeux_game_server.Player.{player_get_name}
use jeux_game_server.Client.Object.{lock_client, unlock_client}
use jeux_game_server.Client.Session.{post_login, name_taken, login_as, login_free}
use jeux_game_server.World.Changing.{same_pointer}
use jeux_game_server.ClientRegistry.{registered}
use jeux_game_server.ClientRegistry.Players.{
  players_of, In, one, count, Watched, Watched-same, ref-Watched, unref-Watched,
  creg_all_players-Watched,
}

-- Whether a player of a list has a name.
abbrev pub any_named : (Ptr → Text) → List Ptr → Text → Bool
any_named names [] name = false
any_named names (p ∷ ps) name = text_eq (names p) name || any_named names ps name

rotate_or : (a b f : Bool) → (b || (a || f)) ≡ ((a || b) || f)
rotate_or true true f = refl
rotate_or true false f = refl
rotate_or false true f = refl
rotate_or false false f = refl

or_false : (b : Bool) → (b || false) ≡ b
or_false true = refl
or_false false = refl

module _ (Watch : Ptr → Type 0) (names : Ptr → Text) (refs : Ptr → ℕ) (ratings : Ptr → ℤ) where
  name_run :
      (w : World) (k : Ptr → ℕ) (p : Ptr)
      → Watched Watch names refs ratings w.players k
      → Watch p
      → player_get_name p w ≡ ok (names p) w
  unfolding player_get_name load_player
  name_run w k p v i = let (x, a, b, c, z, g) = v p i in rw a (rw b refl)

  name_taken-Watched :
      (ps : List Ptr) (w : World) (k : Ptr → ℕ) (name : Text) (found : Bool)
      → Watched Watch names refs ratings w.players (λ q. k q + count q ps)
      → ((p : Ptr) → In p ps → Watch p)
      → (h : Ptr → Option Player) × (name_taken ps name found w
          ≡ ok (any_named names ps name || found) (record w { players = h }))
        × Watched Watch names refs ratings h k
  unfolding name_taken
  name_taken-Watched [] w k name found v i =
      (w.players, refl, Watched-same Watch names refs ratings w.players _ k (λ q. omega arith) v)
  name_taken-Watched (p ∷ ps) w k name found v i =
      let (h, r, u) =
        unref-Watched Watch names refs ratings w (λ q. k q + count q ps) p
          (Watched-same Watch names refs ratings w.players _ _ (λ q. omega arith) v)
          (i p (inl refl)) in
      let (h', r', u') =
        name_taken-Watched ps (record w { players = h }) k name (text_eq (names p) name || found) u
          (λ q m. i q (inr m)) in
      (
        h',
        rw (name_run w _ p v (i p (inl refl)), r, r')
            (ap (λ b. ok b (record w { players = h' }))
              (rotate_or (text_eq (names p) name) (any_named names ps name) found)),
        u',
      )

  -- The world once the search of client_login is over.
  abbrev pub searched : World → (Ptr → Option Player) → World
  searched w h = record w {
    players = h;
    grants = [];
    client_registry = record w.client_registry { mutex = false };
  }

  pub login_free-Watched :
      (w : World) (client player : Ptr)
      → w.client_registry.mutex ≡ false
      → w.grants ≡ []
      → Watched Watch names refs ratings w.players (λ q. 0)
      → Watch player
      → ((p : Ptr) → In p (players_of w.clients (registered w.client_registry)) → Watch p)
      → ((p : Ptr)
          → In (some p) (registered w.client_registry)
          → (c : Client) × (w.clients p ≡ some c))
      → (h : Ptr → Option Player) × (login_free client player w
          ≡ (if any_named names (players_of w.clients (registered w.client_registry)) (names player)
                then post_login >> pure failure
                else login_as client player)
              (searched w h))
        × Watched Watch names refs ratings h (λ q. 0)
  unfolding login_free
  login_free-Watched w client player m g v here i a =
      let (h, r, u) = creg_all_players-Watched Watch names refs ratings w m g v i a in
      let (h', r', u') =
        name_taken-Watched (players_of w.clients (registered w.client_registry)) (searched w h)
          (λ q. 0) (names player) false
          (Watched-same Watch names refs ratings h _ _ (λ q. omega arith) u) i in
      (h', rw (r, name_run (searched w h) _ player u here, r') (rw (or_false _) refl), u')

  -- The world in which the client has its player.
  abbrev with_client : World → Ptr → Ptr → Client → World
  with_client v client player c = record v {
    clients =
        update (update v.clients client (some (record c { lock = true }))) client
          (some (record c { lock = true; player = some player }));
  }

  -- login_as on a client `c` that is not locked.
  abbrev pub Enters : World → Ptr → Ptr → Client → Run Status → Type 0
  Enters v client player c (ok success w') =
      (w'.clients client
        ≡ some (record c { lock = false; player = some player; logged_in = client_logged_in }))
      × ((q : Ptr) → (client == q) ≡ false → w'.clients q ≡ v.clients q)
      × (w'.semaphores ≡ record v.semaphores { login = v.semaphores.login + 1 })
      × (w'.client_registry ≡ v.client_registry)
      × Watched Watch names refs ratings w'.players (one player)
  Enters v client player c (ok failure w') = ⊥
  Enters v client player c fault = ⊥
  Enters v client player c blocked = ⊥

  pub login_as-Enters :
      (v : World) (client player : Ptr) (c : Client)
      → v.clients client ≡ some c
      → c.lock ≡ false
      → Watched Watch names refs ratings v.players (λ q. 0)
      → Watch player
      → Enters v client player c (login_as client player v)
  unfolding login_as lock_client unlock_client load_client store_client sem_post
  login_as-Enters v client player c e l w i =
      let (h, r, u) =
        ref-Watched Watch names refs ratings (with_client v client player c) (λ q. 0) player w i in
      rw (e, l, same_pointer client, r, same_pointer client, same_pointer client)
        (
          rw (same_pointer client) refl,
          (λ q f. rw f refl),
          refl,
          refl,
          Watched-same Watch names refs ratings h _ _ (λ q. omega arith) u,
        )
