-- ===== src/Client/Invites/Adding.antt =====
-- src/client.c: client_add_invitation and the list of invitations.
use jeux_game_server.Prelude.{
  ℕ, ◌+◌, ◌-◌, ◌<◌, ◌≡◌, refl, ap, ◌∙◌, true, false, Option, some, List, [], ◌∷◌, ◌==◌, arith,
}
use jeux_game_server.World.{
  Ptr, Client, Invitation, InvitationNode, World, Run, ok, fault, blocked, M, pure, ◌>>=◌, ◌>>◌,
  and_then, load_client, store_client, load_invitation, store_invitation, granted, sem_wait,
  sem_post, update,
}
use jeux_game_server.Client.Object.{lock_client, unlock_client}
use jeux_game_server.Client.Ids.{allot_id, get_available_id}
use jeux_game_server.Client.Ids.Entries.{IdsValid}
use jeux_game_server.Client.Ids.Allot.{
  with_room, IsLowest, allot_id-IsLowest, allot_id-invite_head, with_room-lock,
}
use jeux_game_server.Client.Invites.{post_invite, client_add_invitation, find_invitation}
use jeux_game_server.Invitation.{inv_ref}
use jeux_game_server.Client.Ids.Giving.{stores, locked, given_id, allotted, get_available_id-runs}
use jeux_game_server.World.Changing.{same_pointer, Holds}

-- The node that is put at the front of the list.
abbrev node_of : Option ℕ → Ptr → InvitationNode
node_of id inv = record { id = id; invitation = inv }

-- What client_add_invitation does once the ID is known.
unfoldable pub link : Ptr → Ptr → Option ℕ → M (Option ℕ)
link p inv id = do
  _ ← inv_ref inv
  c ← load_client p
  lock_client p
  d ← load_client p
  store_client p (some (record d { invite_head = node_of id inv ∷ c.invite_head }))
  unlock_client p
  post_invite
  pure id

-- An invitation with one reference more.
abbrev pub one_more : Invitation → Invitation
one_more i = record i { ref_count = i.ref_count + 1 }

-- A client with an invitation at the front of its list, under an ID.
abbrev pub with_node : Client → Option ℕ → Ptr → Client
with_node y id inv = record y { lock = false; invite_head = node_of id inv ∷ y.invite_head }

link-runs :
    (v : World) (p inv : Ptr) (y : Client) (i : Invitation) (id : Option ℕ)
    → v.clients p ≡ some y
    → y.lock ≡ false
    → v.invitations inv ≡ some i
    → (h : Ptr → Option Client) × (link p inv id v
        ≡ ok id (record v {
          clients = h;
          invitations = update v.invitations inv (some (one_more i));
          semaphores = record v.semaphores { invite = v.semaphores.invite + 1 };
        }))
      × Holds h v.clients p (with_node y id inv)
unfolding link inv_ref load_invitation store_invitation lock_client unlock_client load_client
    store_client sem_post
link-runs v p inv y i id c n l =
    rw (l, c, c, n, same_pointer p, same_pointer p)
      (
        stores v.clients p y
            (record y { lock = true; invite_head = node_of id inv ∷ y.invite_head }),
        refl,
        (rw (same_pointer p) refl, λ q o. rw o refl),
      )

add-runs :
    (w : World) (p inv : Ptr)
    → 0 < w.semaphores.invite
    → w.grants ≡ []
    → client_add_invitation p inv w
      ≡ and_then
          (get_available_id p (record w {
            semaphores = record w.semaphores { invite = w.semaphores.invite - 1 };
            grants = [];
          }))
          (link p inv)
unfolding client_add_invitation sem_wait granted link
add-runs w p inv h m = rw (waits, m) refl
  where
    waits : (w.semaphores.invite == 0) ≡ false
    waits = ground arith

-- The client that client_add_invitation leaves.
abbrev pub invited : Client → Ptr → Client
invited x inv = with_node (allotted x) (given_id x) inv

pub client_add_invitation-runs :
    (w : World) (p inv : Ptr) (x : Client) (i : Invitation)
    → w.clients p ≡ some x
    → x.lock ≡ false
    → w.invitations inv ≡ some i
    → w.grants ≡ []
    → 0 < w.semaphores.invite
    → (h : Ptr → Option Client) × (client_add_invitation p inv w
        ≡ ok (given_id x) (record w {
          clients = h;
          invitations = update w.invitations inv (some (one_more i));
          grants = [];
        }))
      × Holds h w.clients p (invited x inv)
client_add_invitation-runs w p inv x i e l n m h =
    let (f, r, (a, b)) = get_available_id-runs w0 p x e l refl in
    let (g, t, (c, d)) =
      link-runs (record w0 { clients = f }) p inv (allotted x) i (given_id x) a refl n in
    (
      g,
      add-runs w p inv h m
          ∙ (rw (r, t)
              (ap
                (λ s. ok (given_id x) (record w {
                  clients = g;
                  invitations = update w.invitations inv (some (one_more i));
                  grants = [];
                  semaphores = s;
                }))
                back)),
      (c, λ q o. d q o ∙ b q o),
    )
  where
    w0 : World
    w0 = record w {
      semaphores = record w.semaphores { invite = w.semaphores.invite - 1 };
      grants = [];
    }

    back : record w.semaphores { invite = (w.semaphores.invite - 1) + 1 } ≡ w.semaphores
    back = ap (λ k. record w.semaphores { invite = k }) (omega arith)

-- A call of client_add_invitation that returns an ID, under which the invitation is found.
abbrev pub Adds : Ptr → Ptr → Client → World → Run (Option ℕ) → Type 0
Adds p inv x w (ok id w') =
    (n : ℕ) × (id ≡ some n)
    × IsLowest (with_room x).available_ids n
    × ((x' : Client) × (w'.clients p ≡ some x')
        × (x'.lock ≡ false)
        × (x'.invite_head ≡ record { id = id; invitation = inv } ∷ x.invite_head)
        × (find_invitation x'.invite_head n ≡ some inv)
        × IdsValid x')
    × (w'.semaphores ≡ w.semaphores)
Adds p inv x w fault = ⊥
Adds p inv x w blocked = ⊥

found :
    (id : Option ℕ) (n : ℕ) (inv : Ptr) (rest : List InvitationNode)
    → id ≡ some n
    → find_invitation (node_of id inv ∷ rest) n ≡ some inv
unfolding find_invitation
found id n inv rest e = rw (e, same_pointer n) refl

-- The client that is left has the invitation under the least free ID.
abbrev pub HasInvitation : Ptr → Client → Client → Option ℕ → Type 0
HasInvitation inv x x' id =
    (n : ℕ) × (id ≡ some n)
    × IsLowest (with_room x).available_ids n
    × (x'.lock ≡ false)
    × (x'.invite_head ≡ record { id = id; invitation = inv } ∷ x.invite_head)
    × (find_invitation x'.invite_head n ≡ some inv)
    × IdsValid x'

pub invited-HasInvitation :
    (x : Client) (inv : Ptr) → IdsValid x → HasInvitation inv x (invited x inv) (given_id x)
invited-HasInvitation x inv valid =
    let (n, a, lowest, after) =
      allot_id-IsLowest (locked x)
        (record { size = valid.size; own = valid.own; usage = valid.usage; room = valid.room }) in
    (
      n,
      a,
      rw (with_room-lock x true) at lowest,
      refl,
      ap (λ rest. node_of (given_id x) inv ∷ rest) (allot_id-invite_head (locked x)),
      found (given_id x) n inv (allot_id (with_room (locked x))).1.invite_head a,
      record { size = after.size; own = after.own; usage = after.usage; room = after.room },
    )

-- Where memory is granted, for a client that nobody has locked, whose array of IDs is valid, and an
-- invitation that exists, with the semaphore of the invitation lists free: client_add_invitation
-- returns the least ID that is free once the array has room, puts the invitation at the front of
-- the client's list under it, so that a search for the ID finds it, and leaves the client unlocked,
-- its array of IDs valid, and the semaphores as they were.
pub client_add_invitation-Adds :
    (w : World) (p inv : Ptr) (x : Client) (i : Invitation)
    → w.clients p ≡ some x
    → x.lock ≡ false
    → IdsValid x
    → w.invitations inv ≡ some i
    → w.grants ≡ []
    → 0 < w.semaphores.invite
    → Adds p inv x w (client_add_invitation p inv w)
client_add_invitation-Adds w p inv x i e l valid n m h =
    let (f, r, (a, b)) = client_add_invitation-runs w p inv x i e l n m h in
    let (k, q, lowest, o, v, u, after) = invited-HasInvitation x inv valid in
    rw r (k, q, lowest, (invited x inv, a, o, v, u, after), refl)
