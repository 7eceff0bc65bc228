-- ===== src/ClientRegistry/Players.antt =====
-- src/client_registry.c and src/player.c: the players that creg_all_players collects, and their
-- reference counts while they are held.
use jeux_game_server.Prelude.{
  ℕ, zero, suc, ◌+◌, ◌-◌, ◌<◌, ◌≡◌, refl, sym, ◌∙◌, inl, inr, ◌⊎◌, true, false, Option, none, some,
  List, [], ◌∷◌, ◌==◌, ==_iff, if◌then◌else◌, arith, Bool-cases, Option-cases,
}
use jeux_game_server.Prelude.Int.{ℤ}
use jeux_game_server.Game.Text.{Text}
use jeux_game_server.World.{
  Ptr, Player, Client, World, ok, ◌>>=◌, update, load_player, store_player, load_client, granted,
}
use jeux_game_server.Player.{drop_count, player_ref, player_unref}
use jeux_game_server.Client.Object.{client_get_player}
use jeux_game_server.ClientRegistry.{
  players_loop, creg_all_players, registered, lock_registry, unlock_registry,
}

-- The players of the clients that a list of entries holds.
abbrev pub with_player : Option Ptr → List Ptr → List Ptr
with_player none ps = ps
with_player (some p) ps = p ∷ ps

abbrev pub of_client : Option Client → List Ptr → List Ptr
of_client none ps = ps
of_client (some c) ps = with_player c.player ps

abbrev pub players_of : (Ptr → Option Client) → List (Option Ptr) → List Ptr
players_of h [] = []
players_of h (none ∷ cs) = players_of h cs
players_of h (some c ∷ cs) = of_client (h c) (players_of h cs)

abbrev pub one : Ptr → Ptr → ℕ
one p q = if p == q then 1 else 0

abbrev pub count : Ptr → List Ptr → ℕ
count q [] = 0
count q (p ∷ ps) = one p q + count q ps

abbrev pub In : {A : Type 0} → A → List A → Type 0
In p [] = ⊥
In p (q ∷ qs) = (p ≡ q) ⊎ In p qs

one_self : (p : Ptr) → one p p ≡ 1
one_self p = ground arith

unref_rest :
    (w : World) (p : Ptr) (x : Player) (n : ℕ)
    → 1 < n
    → (drop_count n >>= λ left.
          store_player p (if left == 0 then none else some (record x { ref_count = left })))
        w
      ≡ ok tt (record w { players = update w.players p (some (record x { ref_count = n - 1 })) })
unfolding store_player
unref_rest w p x zero h = absurd (omega arith)
unref_rest w p x (suc zero) h = absurd (omega arith)
unref_rest w p x (suc (suc n)) h = ground arith

unref_run :
    (w : World) (p : Ptr) (x : Player)
    → w.players p ≡ some x
    → 1 < x.ref_count
    → player_unref p w
      ≡ ok tt (record w {
        players = update w.players p (some (record x { ref_count = x.ref_count - 1 }));
      })
unfolding player_unref load_player
unref_run w p x a h = rw a (unref_rest w p x x.ref_count h)

-- The registry while creg_all_players has locked it.
abbrev while_locked : World → World
while_locked w = record w {
  client_registry = record w.client_registry { mutex = true };
  grants = [];
}

locks :
    (w : World)
    → w.client_registry.mutex ≡ false
    → lock_registry w
      ≡ ok tt (record w { client_registry = record w.client_registry { mutex = true } })
unfolding lock_registry
locks w m = ground arith

-- Some players that are watched, with their names, reference counts and ratings.
module _ (Watch : Ptr → Type 0) (names : Ptr → Text) (refs : Ptr → ℕ) (ratings : Ptr → ℤ) where
  -- Each is allocated, under its name, with `k` references more than it had.
  abbrev pub Watched : (Ptr → Option Player) → (Ptr → ℕ) → Type 0
  Watched h k =
      (p : Ptr)
      → Watch p
      → (x : Player) × (h p ≡ some x)
        × (x.name ≡ names p)
        × (x.ref_count ≡ refs p + k p)
        × (0 < refs p)
        × (x.rating ≡ ratings p)

  pub Watched-same :
      (h : Ptr → Option Player) (k l : Ptr → ℕ)
      → ((p : Ptr) → l p ≡ k p)
      → Watched h k
      → Watched h l
  Watched-same h k l e v p i =
      let (x, a, b, c, z, g) = v p i in (x, a, b, omega (arith, e p, c), z, g)

  held :
      (h : Ptr → Option Player) (k : Ptr → ℕ) (p : Ptr) (x : Player)
      → h p ≡ some x
      → Watched h k
      → Watch p
      → (x.name ≡ names p) × (x.ref_count ≡ refs p + k p) × (0 < refs p) × (x.rating ≡ ratings p)
  held h k p x e v w = let (y, a, b, c, z, g) = v p w in rw (same y (sym e ∙ a)) (b, c, z, g)
    where
      same : (y : Player) → some x ≡ some y → x ≡ y
      same y g = cc

  -- A player takes another reference count.
  counted :
      (h : Ptr → Option Player) (k l : Ptr → ℕ) (p : Ptr) (x : Player) (n : ℕ)
      → h p ≡ some x
      → Watched h k
      → Watch p
      → n ≡ refs p + l p
      → ((q : Ptr) → (p == q) ≡ false → l q ≡ k q)
      → Watched (update h p (some (record x { ref_count = n }))) l
  counted h k l p x n e v w m s q i = elim (Bool-cases (p == q)) [
    | inl t ↦
        rw (t, ← (==_iff p q).0 t)
          (
            record x { ref_count = n },
            refl,
            (held h k p x e v w).0,
            m,
            (held h k p x e v w).2,
            (held h k p x e v w).3,
          )
    | inr f ↦ let (y, a, b, c, z, g) = v q i in (y, rw f a, b, omega (arith, c, s q f), z, g)
  ]

  pub ref-Watched :
      (w : World) (k : Ptr → ℕ) (p : Ptr)
      → Watched w.players k
      → Watch p
      → (h : Ptr → Option Player) × (player_ref p w ≡ ok p (record w { players = h }))
        × Watched h (λ q. k q + one p q)
  unfolding player_ref load_player store_player
  ref-Watched w k p v i =
      let (x, a, b, c, z, g) = v p i in
      (
        update w.players p (some (record x { ref_count = x.ref_count + 1 })),
        rw a refl,
        counted w.players k (λ q. k q + one p q) p x (x.ref_count + 1) a v i
            (omega (arith, c, one_self p)) (λ q f. rw f (omega arith)),
      )

  pub unref-Watched :
      (w : World) (k : Ptr → ℕ) (p : Ptr)
      → Watched w.players (λ q. k q + one p q)
      → Watch p
      → (h : Ptr → Option Player) × (player_unref p w ≡ ok tt (record w { players = h }))
        × Watched h k
  unfolding player_unref load_player store_player
  unref-Watched w k p v i =
      let (x, a, b, c, z, g) = v p i in
      (
        update w.players p (some (record x { ref_count = x.ref_count - 1 })),
        unref_run w p x a (omega (arith, c, z, one_self p)),
        counted w.players (λ q. k q + one p q) k p x (x.ref_count - 1) a v i
            (omega (arith, c, z, one_self p)) (λ q f. rw f (omega arith)),
      )

  pub players_loop-Watched :
      (cs : List (Option Ptr)) (w : World) (k : Ptr → ℕ)
      → Watched w.players k
      → ((p : Ptr) → In p (players_of w.clients cs) → Watch p)
      → ((p : Ptr) → In (some p) cs → (c : Client) × (w.clients p ≡ some c))
      → (h : Ptr → Option Player) × (players_loop cs w
          ≡ ok (players_of w.clients cs) (record w { players = h }))
        × Watched h (λ q. k q + count q (players_of w.clients cs))
  unfolding players_loop client_get_player load_client
  players_loop-Watched [] w k v i a =
      (w.players, refl, Watched-same w.players k _ (λ p. omega arith) v)
  players_loop-Watched (none ∷ cs) w k v i a = players_loop-Watched cs w k v i (λ p m. a p (inr m))
  players_loop-Watched (some c ∷ cs) w k v i a =
      let (x, e) = a c (inl refl) in
      elim (Option-cases x.player) [
        | inl n ↦
            let (h, r, u) =
              players_loop-Watched cs w k v (λ p m. i p (rw (e, n) m)) (λ p m. a p (inr m)) in
            rw (e, n) (h, r, u)
        | inr (p, n) ↦
            let (h, r, u) = ref-Watched w k p v (i p (rw (e, n) (inl refl))) in
            let (h', r', u') =
              players_loop-Watched cs (record w { players = h }) (λ q. k q + one p q) u
                (λ q m. i q (rw (e, n) (inr m))) (λ q m. a q (inr m)) in
            rw (e, n) (h', rw (r, r') refl, Watched-same h' _ _ (λ q. omega arith) u')
      ]

  pub creg_all_players-Watched :
      (w : World)
      → w.client_registry.mutex ≡ false
      → w.grants ≡ []
      → Watched w.players (λ q. 0)
      → ((p : Ptr) → In p (players_of w.clients (registered w.client_registry)) → Watch p)
      → ((p : Ptr)
          → In (some p) (registered w.client_registry)
          → (c : Client) × (w.clients p ≡ some c))
      → (h : Ptr → Option Player) × (creg_all_players w
          ≡ ok (some (players_of w.clients (registered w.client_registry))) (record w {
            players = h;
            grants = [];
            client_registry = record w.client_registry { mutex = false };
          }))
        × Watched h (λ q. count q (players_of w.clients (registered w.client_registry)))
  unfolding creg_all_players granted unlock_registry
  creg_all_players-Watched w m g v i a =
      let (h, r, u) =
        players_loop-Watched (registered w.client_registry) (while_locked w) (λ q. 0) v i a in
      (h, rw (locks w m, g, r) refl, Watched-same h _ _ (λ q. omega arith) u)
