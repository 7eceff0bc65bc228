-- ===== src/Client/Outside.antt =====
-- src/client.c: what the operations on an invitation leave alone, beside its semaphore.
use jeux_game_server.Prelude.{
  ◌<◌, ◌⊎◌, inl, inr, ◌==◌, ==_iff, Bool-cases, none, some, Option, ℕ, ◌+◌, ◌≤◌, ◌≡◌, refl, sym, ap,
  ◌∙◌, List, [], ◌++◌, arith,
}
use mathlib.Core.List.{append_assoc}
use jeux_game_server.World.{Ptr, Invitation, Client, closed_state, update, World}
use jeux_game_server.World.Keeps.{Composes}
use jeux_game_server.Game.Text.{Text}
use jeux_game_server.Client.Lists.{MovesAt, MovesAt-same, MovesAt-then}

-- An invitation that is freed or closed.
abbrev pub IsDead : Option Invitation → Type 0
IsDead o = (o ≡ none) ⊎ ((i : Invitation) × (o ≡ some i) × (i.state ≡ closed_state))

-- What no operation on an invitation touches: the two registries, the semaphore of a login, the
-- connections that are shut. Addresses are given in order, and packets are only added.
pub record Outside (w w' : World) : Type 0 where
  pub client_registry : w'.client_registry ≡ w.client_registry
  pub player_registry : w'.player_registry ≡ w.player_registry
  pub login : w'.semaphores.login ≡ w.semaphores.login
  pub shut : w'.shut ≡ w.shut
  pub fresh : w.fresh ≤ w'.fresh
  pub sent : (more : List (ℕ × Text)) × (w'.sent ≡ more ++ w.sent)
  pub dead : (p : Ptr) → p < w.fresh → IsDead (w.invitations p) → IsDead (w'.invitations p)

pub outside : {w : World} → Outside w w
outside = record {
  client_registry = refl;
  player_registry = refl;
  login = refl;
  shut = refl;
  fresh = omega arith;
  sent = ([], refl);
  dead = λ p h d. d;
}

pub Outside-then : (u v w : World) → Outside u v → Outside v w → Outside u w
Outside-then u v w a b = record {
  client_registry = b.client_registry ∙ a.client_registry;
  player_registry = b.player_registry ∙ a.player_registry;
  login = b.login ∙ a.login;
  shut = b.shut ∙ a.shut;
  fresh = omega (arith, a.fresh, b.fresh);
  dead = λ p h d. b.dead p (omega (arith, a.fresh)) (a.dead p h d);
  sent = (
    b.sent.0 ++ a.sent.0,
    b.sent.1 ∙ ap (λ s. b.sent.0 ++ s) a.sent.1 ∙ sym (append_assoc b.sent.0 a.sent.0 u.sent),
  );
}

-- The lists of invitations and the arrays of IDs move together, and no client is made.
abbrev pub Lists : World → World → Type 0
Lists w w' = (p : Ptr) → MovesAt (w.clients p) (w'.clients p)

pub lists : (w : World) → Lists w w
lists w p = MovesAt-same (w.clients p)

pub Lists-then : (u v w : World) → Lists u v → Lists v w → Lists u w
Lists-then u v w a b p = MovesAt-then (u.clients p) (v.clients p) (w.clients p) (a p) (b p)

-- What holds also where an ID is taken that has no node yet.
abbrev pub SameButLists : World → World → Type 0
SameButLists w w' = (w'.semaphores.invite_op ≡ w.semaphores.invite_op) × Outside w w'

abbrev pub SameOp : World → World → Type 0
SameOp w w' = (w'.semaphores.invite_op ≡ w.semaphores.invite_op) × Outside w w' × Lists w w'

-- The operation's semaphore has been posted once.
abbrev pub OneMore : World → World → Type 0
OneMore w w' = (w'.semaphores.invite_op ≡ w.semaphores.invite_op + 1) × Outside w w' × Lists w w'

-- A step that only changes the other fields.
pub quiet :
    {w w' : World}
    → w'.client_registry ≡ w.client_registry
    → w'.player_registry ≡ w.player_registry
    → w'.semaphores ≡ w.semaphores
    → w'.shut ≡ w.shut
    → w'.fresh ≡ w.fresh
    → w'.sent ≡ w.sent
    → w'.invitations ≡ w.invitations
    → w'.clients ≡ w.clients
    → SameOp w w'
quiet {w} {w'} r p s h f t v c = (
  ap (λ x. x.invite_op) s,
  record {
    client_registry = r;
    player_registry = p;
    login = ap (λ x. x.login) s;
    shut = h;
    fresh = omega arith;
    sent = ([], t);
    dead = λ q l d. rw (ap (λ m. m q) v) d;
  },
  λ q. rw (ap (λ m. m q) c) (MovesAt-same (w.clients q)),
)

pub same_then : Composes SameOp SameOp SameOp
same_then u v w (e, a, l) (d, b, k) = (d ∙ e, Outside-then u v w a b, Lists-then u v w l k)

pub same_more : Composes SameOp OneMore OneMore
same_more u v w (e, a, l) (d, b, k) = (omega arith, Outside-then u v w a b, Lists-then u v w l k)

pub but_then : Composes SameButLists SameButLists SameButLists
but_then u v w (e, a) (d, b) = (d ∙ e, Outside-then u v w a b)

-- A store in the heap of invitations that puts a dead one in the place of a dead one.
pub stored :
    (w : World) (p : Ptr) (o : Option Invitation)
    → (p < w.fresh → IsDead (w.invitations p) → IsDead o)
    → SameOp w (record w { invitations = update w.invitations p o })
stored w p o k = (
  refl,
  record {
    client_registry = refl;
    player_registry = refl;
    login = refl;
    shut = refl;
    fresh = omega arith;
    sent = ([], refl);
    dead = λ q h d. elim (Bool-cases (p == q)) [
      | inl t ↦ rw t (k (rw ((==_iff p q).0 t) h) (rw ((==_iff p q).0 t) d))
      | inr f ↦ rw f d
    ];
  },
  lists w,
)

-- A store in the heap of clients.
pub stored_client :
    (w : World) (p : Ptr) (o : Option Client)
    → MovesAt (w.clients p) o
    → SameOp w (record w { clients = update w.clients p o })
stored_client w p o k = (
  refl,
  record {
    client_registry = refl;
    player_registry = refl;
    login = refl;
    shut = refl;
    fresh = omega arith;
    sent = ([], refl);
    dead = λ q h d. d;
  },
  λ q. elim (Bool-cases (p == q)) [
    | inl t ↦ rw t (rw ((==_iff p q).0 t) at k)
    | inr f ↦ rw f (MovesAt-same (w.clients q))
  ],
)
