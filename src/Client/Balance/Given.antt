-- ===== src/Client/Balance/Given.antt =====
-- src/client.c: adding an invitation to a client's list and removing one, where an ID is taken or
-- given back on the way.
use jeux_game_server.Prelude.{
  ℕ, ◌*◌, ◌≡◌, refl, ◌⊎◌, inl, inr, Bool, true, false, Option, none, some, [], ◌∷◌, ◌==◌, ==_iff,
  leb, Bool-cases, Option-cases,
}
use jeux_game_server.World.{
  Ptr, Client, World, Run, ok, fault, blocked, M, pure, ◌>>=◌, and_then, next_grant, load_client,
  store_client, load_invitation, store_invitation, granted, sem_post,
}
use jeux_game_server.World.Keeps.{Keeps, Ends, bind, weaken, branch, faults, blocks}
use jeux_game_server.Client.Object.{lock_client, unlock_client}
use jeux_game_server.Client.Ids.{grow_ids, get_available_id, purge_id, allot_id}
use jeux_game_server.Client.Invites.{post_invite}
use jeux_game_server.World.Changing.{same_pointer}
use jeux_game_server.Client.Invites.Adding.{link}
use jeux_game_server.Client.Lists.{MovesAt, Moves-then, Moves-fields}
use jeux_game_server.Client.Lists.Steps.{Given, allot_id-Given, linked}
use jeux_game_server.Client.Outside.{SameOp, SameButLists, Lists, lists, but_then, stored_client}
use jeux_game_server.Client.Balance.{done, load_client-Same, granted-Same, sem_post-Same}
use jeux_game_server.Client.Balance.Stored.{inv_ref-Same}
use jeux_game_server.Client.Balance.Locks.{lock_client-Same, unlock_client-Same}
use jeux_game_server.Invitation.{inv_ref}

pub but : {A : Type 0} {m : M A} → Keeps SameOp m → Keeps SameButLists m
but k = weaken (λ w w' e. (e.0, e.1)) k

pub both_ends :
    {A : Type 0} (w : World) (r : Run A) → Ends SameButLists w r → Ends Lists w r → Ends SameOp w r
both_ends w (ok a w') e d = (e.0, e.1, d)
both_ends w fault e d = tt
both_ends w blocked e d = tt

both : {A : Type 0} (m : M A) → Keeps SameButLists m → Keeps Lists m → Keeps SameOp m
both m k l = record { run = λ w. both_ends w (m w) (k.run w) (l.run w) }

pub but_bind :
    {A B : Type 0} (m : M A) (f : A → M B)
    → Keeps SameButLists m
    → ((a : A) → Keeps SameButLists (f a))
    → Keeps SameButLists (m >>= f)
but_bind m f km kf = bind but_then km kf

pub but_done : {A : Type 0} (a : A) → Keeps SameButLists (pure a)
but_done a = but (done a)

pub but_load : (p : Ptr) → Keeps SameButLists (load_client p)
but_load p = but (load_client-Same p)

pub but_store : (p : Ptr) (x : Option Client) → Keeps SameButLists (store_client p x)
unfolding store_client
but_store p x = record {
  run = λ w.
      let (e, o, l) = stored_client w p none (free (w.clients p)) in
      (
        e,
        record {
          client_registry = refl;
          player_registry = refl;
          login = refl;
          shut = refl;
          fresh = o.fresh;
          sent = ([], refl);
          dead = λ q h d. d;
        },
      );
}
  where
    free : (o : Option Client) → MovesAt o none
    free none = refl
    free (some c) = tt

but_lock : (p : Ptr) → Keeps SameButLists (lock_client p)
but_lock p = but (lock_client-Same p)

but_unlock : (p : Ptr) → Keeps SameButLists (unlock_client p)
but_unlock p = but (unlock_client-Same p)

but_granted : Keeps SameButLists granted
but_granted = but granted-Same

ruleset but_rules = (
  but_bind, but_done, but_load, but_store, but_lock, but_unlock, but_granted, branch, faults,
  blocks,
)

pub get_available_id-But : (p : Ptr) → Keeps SameButLists (get_available_id p)
unfolding get_available_id
get_available_id-But p = search but_rules depth 20

pub post_invite-Same : Keeps SameOp post_invite
post_invite-Same = sem_post-Same _ _ λ n s. (refl, refl)

pub purge_id-But : (p : Ptr) (id : Option ℕ) → Keeps SameButLists (purge_id p id)
unfolding purge_id
purge_id-But p none = search but_rules depth 20
purge_id-But p (some id) = search but_rules depth 20

-- What get_available_id does to the clients: it takes an ID, or keeps the lock.
abbrev Allots : Ptr → World → Run (Option ℕ) → Type 0
Allots p w (ok id w') =
    ((q : Ptr) → (p == q) ≡ false → w'.clients q ≡ w.clients q)
    × ((x : Client) × (y : Client) × (w.clients p ≡ some x)
        × (w'.clients p ≡ some y)
        × (Given x id y ⊎ (y.lock ≡ true)))
Allots p w fault = Unit {0}
Allots p w blocked = Unit {0}

Given-lock :
    (x y : Client) (id : Option ℕ) (b c : Bool)
    → Given (record x { lock = b }) id y
    → Given x id (record y { lock = c })
Given-lock x y id b c g s =
    let (n, e, v, h, m) = g (Moves-fields x (record x { lock = b }) refl refl refl refl s).0 in
    (n, e, record { size = v.size; own = v.own; usage = v.usage; room = v.room }, h, m)

get_available_id-Allots : (w : World) (p : Ptr) → Allots p w (get_available_id p w)
unfolding get_available_id lock_client unlock_client load_client store_client granted
get_available_id-Allots w p = elim (Option-cases (w.clients p)) [
  | inl e ↦ rw e tt
  | inr (x, e) ↦ elim (Bool-cases x.lock) [
    | inl l ↦ rw (e, l) tt
    | inr l ↦ elim (Bool-cases (leb x.current_id_size x.id_usage)) [
      | inr f ↦
          rw (e, l, same_pointer p, f, same_pointer p)
            (
              λ q d. rw d refl,
              (
                x,
                record (allot_id (record x { lock = true })).1 { lock = false },
                e,
                rw (same_pointer p) refl,
                inl (
                    Given-lock x _ _ true false
                      (rw f at (allot_id-Given (record x { lock = true })))),
              ),
            )
      | inl f ↦ elim (Bool-cases (next_grant w.grants).0) [
        | inl g ↦
            rw (e, l, same_pointer p, f, g, same_pointer p)
              (
                λ q d. rw d refl,
                (
                  x,
                  record (allot_id (grow_ids (record x { lock = true }))).1 { lock = false },
                  e,
                  rw (same_pointer p) refl,
                  inl (
                      Given-lock x _ _ true false
                        (rw f at (allot_id-Given (record x { lock = true })))),
                ),
              )
        | inr g ↦
            rw (e, l, same_pointer p, f, g, same_pointer p)
              (
                λ q d. rw d refl,
                (
                  x,
                  record x {
                    lock = true;
                    current_id_size = x.current_id_size * 2;
                    available_ids = [];
                  },
                  e,
                  refl,
                  inr refl,
                ),
              )
      ]
    ]
  ]
]

-- What is done once the ID is known.
abbrev Puts : Ptr → Ptr → Client → World → Option ℕ → Run (Option ℕ) → Type 0
Puts p inv y v id (ok d w') =
    (y.lock ≡ false)
    × ((q : Ptr) → (p == q) ≡ false → w'.clients q ≡ v.clients q)
    × (w'.clients p
        ≡ some (record y {
          lock = false;
          invite_head = record { id = id; invitation = inv } ∷ y.invite_head;
        }))
Puts p inv y v id fault = Unit {0}
Puts p inv y v id blocked = Unit {0}

link-Puts :
    (v : World) (p inv : Ptr) (y : Client) (id : Option ℕ)
    → v.clients p ≡ some y
    → Puts p inv y v id (link p inv id v)
unfolding link inv_ref load_invitation store_invitation lock_client unlock_client load_client
    store_client sem_post
link-Puts v p inv y id c = elim (Option-cases (v.invitations inv)) [
  | inl e ↦ rw e tt
  | inr (i, e) ↦ elim (Bool-cases y.lock) [
    | inl l ↦ rw (e, c, c, l) tt
    | inr l ↦
        rw (e, c, c, l, same_pointer p, same_pointer p)
          (refl, λ q d. rw d refl, rw (same_pointer p) refl)
  ]
]

linked_at :
    (w v : World) (p inv : Ptr) (x y : Client) (id : Option ℕ) (r : Run (Option ℕ))
    → w.clients p ≡ some x
    → ((q : Ptr) → (p == q) ≡ false → v.clients q ≡ w.clients q)
    → (Given x id y ⊎ (y.lock ≡ true))
    → Puts p inv y v id r
    → Ends Lists w r
linked_at w v p inv x y id (ok d w') c others (inr l) (m, s, e) = cc
linked_at w v p inv x y id (ok d w') c others (inl g) (m, s, e) = λ q. elim (Bool-cases (p == q)) [
  | inl t ↦
      rw (← (==_iff p q).0 t, c, e)
        (Moves-then x _ _ (linked x y id inv g) (
          Moves-fields
            (record y { invite_head = record { id = id; invitation = inv } ∷ y.invite_head }) _ refl
            refl refl refl))
  | inr f ↦ rw (s q f, others q f) (lists w q)
]
linked_at w v p inv x y id fault c others g s = tt
linked_at w v p inv x y id blocked c others g s = tt

adds-Lists : (p inv : Ptr) → Keeps Lists (get_available_id p >>= λ id. link p inv id)
adds-Lists p inv = record {
  run = λ w. after w (get_available_id p w) (get_available_id-Allots w p);
}
  where
    after : (w : World) (r : Run (Option ℕ)) → Allots p w r → Ends Lists w (and_then r (link p inv))
    after w (ok id v) (others, (x, y, c, d, g)) =
        linked_at w v p inv x y id (link p inv id v) c others g (link-Puts v p inv y id d)
    after w fault a = tt
    after w blocked a = tt

link-But : (p inv : Ptr) (id : Option ℕ) → Keeps SameButLists (link p inv id)
unfolding link
link-But p inv id = but_bind _ _ (but (inv_ref-Same inv)) λ _. but_bind _ _ (but_load p) λ c.
    but_bind _ _ (but_lock p) λ _. but_bind _ _ (but_load p) λ d.
      but_bind _ _ (but_store p _)
        λ _. but_bind _ _ (but_unlock p) λ _. but_bind _ _ (but post_invite-Same) λ _. but_done id

pub adds-Same : (p inv : Ptr) → Keeps SameOp (get_available_id p >>= λ id. link p inv id)
adds-Same p inv = both _ (but_bind _ _ (get_available_id-But p) (link-But p inv)) (adds-Lists p inv)
