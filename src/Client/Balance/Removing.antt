-- ===== src/Client/Balance/Removing.antt =====
-- src/client.c: client_remove_invitation, from the search to the return of the ID.
use jeux_game_server.Prelude.{
  ℕ, ◌<◌, ◌≡◌, refl, inl, inr, true, false, not, Option, none, some, ◌==◌, ==_iff, leb,
  if◌then◌else◌, arith, Bool-cases, Option-cases,
}
use jeux_game_server.World.{
  Ptr, Client, World, Run, ok, fault, blocked, M, ◌>>=◌, ◌>>◌, and_then, update, load_client,
  store_client,
}
use jeux_game_server.World.Keeps.{Keeps, Ends, Ends-after, weaken}
use jeux_game_server.Client.Object.{lock_client, unlock_client}
use jeux_game_server.Client.Ids.{purge_id, free_id}
use jeux_game_server.Client.Invites.{find_id, holds}
use jeux_game_server.World.Changing.{same_pointer}
use jeux_game_server.Client.Lists.{Moves, Moves-fields}
use jeux_game_server.Client.Lists.Steps.{unlinked, freed}
use jeux_game_server.Client.Outside.{SameOp, SameButLists, Lists, Lists-then}
use jeux_game_server.Client.Balance.Given.{but, both_ends, but_bind, but_store, purge_id-But}

-- What purge_id does to the clients.
abbrev Frees : {A : Type 0} → Ptr → Option ℕ → World → Run A → Type 0
Frees p id w (ok a w') =
    ((q : Ptr) → (p == q) ≡ false → w'.clients q ≡ w.clients q)
    × ((n : ℕ) × (y : Client) × (y' : Client) × (id ≡ some n)
        × (w.clients p ≡ some y)
        × (w'.clients p ≡ some y')
        × (n < y.current_id_size → y' ≡ record (free_id y n) { lock = false }))
Frees p id w fault = Unit {0}
Frees p id w blocked = Unit {0}

purge_id-Frees : (w : World) (p : Ptr) (id : Option ℕ) → Frees p id w (purge_id p id w)
unfolding purge_id lock_client unlock_client load_client store_client free_id
purge_id-Frees w p none = tt
purge_id-Frees w p (some n) = elim (Option-cases (w.clients p)) [
  | inl e ↦ rw e tt
  | inr (y, e) ↦ elim (Bool-cases y.lock) [
    | inl l ↦ rw (e, l) tt
    | inr l ↦ elim (Bool-cases (leb y.current_id_size n)) [
      | inl f ↦
          rw (e, l, same_pointer p, f)
            (
              λ q d. rw d refl,
              (
                n,
                y,
                record y { lock = true },
                refl,
                e,
                rw (same_pointer p) refl,
                λ h. absurd (ground arith),
              ),
            )
      | inr f ↦
          rw (e, l, same_pointer p, f, same_pointer p)
            (
              λ q d. rw d refl,
              (
                n,
                y,
                record (free_id y n) { lock = false },
                refl,
                e,
                rw (same_pointer p) refl,
                λ h. refl,
              ),
            )
    ]
  ]
]

lists_of : {A : Type 0} {m : M A} → Keeps SameOp m → Keeps Lists m
lists_of k = weaken (λ w w' e. e.2) k

-- The client itself.
given_back :
    (c y y' : Client) (inv : Ptr) (n : ℕ)
    → holds c.invite_head inv ≡ true
    → find_id c.invite_head inv ≡ some n
    → Moves (unlinked c inv) y
    → (n < y.current_id_size → y' ≡ record (free_id y n) { lock = false })
    → Moves c y'
given_back c y y' inv n h f moves same s =
    let (l, t, e) = freed c y inv n h f moves s in
    let (t', e') =
      Moves-fields (free_id y n) (record (free_id y n) { lock = false }) refl refl refl refl t in
    rw (same l) (t', λ j. omega (arith, e j, e' j))

module _ {B : Type 0} (p inv : Ptr) (m : M (Unit {0})) (n : M B) (k : Client → M B) where
  -- The branch for an invitation that is in the list.
  unfoldable pub take_out : Client → M B
  take_out c =
      store_client p (some (unlinked c inv))
      >> (m >> (purge_id p (find_id c.invite_head inv) >> k c))

  module _ (km : Keeps SameOp m) (kn : Keeps SameOp n)
      (kk : (c : Client) → Keeps SameOp (k c)) where
    take_out-But : (c : Client) → Keeps SameButLists (take_out c)
    unfolding take_out
    take_out-But c =
        but_bind _ _ (but_store p _)
          λ _. but_bind _ _ (but km) λ _. but_bind _ _ (purge_id-But p _) λ _. but (kk c)

    -- From the list without the node to the array without the ID.
    purged :
        (w u : World) (c : Client) (r : Run (Unit {0}))
        → w.clients p ≡ some c
        → holds c.invite_head inv ≡ true
        → Lists (record w { clients = update w.clients p (some (unlinked c inv)) }) u
        → Frees p (find_id c.invite_head inv) u r
        → Ends Lists w r
    purged w u c (ok a w') e h l (others, (n, y, y', f, at_u, at_w, same)) = λ q.
        elim (Bool-cases (p == q)) [
          | inl t ↦
              rw (← (==_iff p q).0 t, e, at_w)
                (given_back c y y' inv n h f (rw (same_pointer p, at_u) at (l p)) same)
          | inr d ↦ rw (others q d) (rw d at (l q))
        ]
    purged w u c fault e h l g = tt
    purged w u c blocked e h l g = tt

    after :
        (w u : World) (c : Client) (r : Run (Unit {0}))
        → Ends Lists w r
        → Ends Lists w (and_then r λ _. k c)
    after w u c (ok a v) l =
        Ends-after Lists Lists Lists w v (k c v) Lists-then l ((lists_of (kk c)).run v)
    after w u c fault l = tt
    after w u c blocked l = tt

    take_out-Lists :
        (w : World) (c : Client)
        → w.clients p ≡ some c
        → holds c.invite_head inv ≡ true
        → Ends Lists w (take_out c w)
    unfolding take_out store_client
    take_out-Lists w c e h = rest (m w1) ((lists_of km).run w1)
      where
        w1 : World
        w1 = record w { clients = update w.clients p (some (unlinked c inv)) }

        rest :
            (r : Run (Unit {0}))
            → Ends Lists w1 r
            → Ends Lists w (and_then r λ _. purge_id p (find_id c.invite_head inv) >> k c)
        rest (ok a u) l =
            after w u c (purge_id p (find_id c.invite_head inv) u)
              (purged w u c _ e h l (purge_id-Frees u p _))
        rest fault l = tt
        rest blocked l = tt

    pub removes-Same :
        Keeps SameOp
          (load_client p >>= λ c. if not (holds c.invite_head inv) then n else take_out c)
    unfolding load_client
    removes-Same = record {
      run = λ w. elim (Option-cases (w.clients p)) [
        | inl e ↦ rw e tt
        | inr (c, e) ↦ elim (Bool-cases (holds c.invite_head inv)) [
          | inl h ↦
              rw (e, h)
                (both_ends w (take_out c w) ((take_out-But c).run w) (take_out-Lists w c e h))
          | inr h ↦ rw (e, h) (kn.run w)
        ]
      ];
    }
