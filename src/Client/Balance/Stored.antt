-- ===== src/Client/Balance/Stored.antt =====
-- src/invitation.c: making and accepting an invitation leave the semaphore alone and every dead
-- invitation dead.
use jeux_game_server.Prelude.{
  ℕ, zero, suc, ◌+◌, ◌≤◌, ◌<◌, ◌≡◌, ◌≢◌, refl, sym, ap, ◌∙◌, ◌⊎◌, inl, inr, true, false, Option,
  none, some, [], ◌==◌, ==_iff, arith, Bool-cases, Option-cases, if◌then◌else◌,
}
use jeux_game_server.Game.{Role, failure, game_create, game_ref}
use jeux_game_server.World.{
  Ptr, Invitation, InvitationState, open_state, closed_state, World, M, pure, ◌>>=◌, ◌>>◌, update,
  next_grant, load_invitation, store_invitation, calloc, granted, store_game,
}
use jeux_game_server.World.Keeps.{Keeps, Ends, Ends-after}
use jeux_game_server.Client.Object.{client_ref}
use jeux_game_server.Invitation.{
  state_eq, new_invitation, place_game, accept_open, new_game, inv_ref, inv_create, inv_accept,
}
use jeux_game_server.Client.Balance.{same_rules, done}
use jeux_game_server.Client.Outside.{SameOp, lists, IsDead, stored, quiet, same_then}
use jeux_game_server.Client.Balance.Locks.{client_ref-Same}

pub none-ne-some : {o : Invitation} → none ≢ some o
none-ne-some e = cc

-- An invitation keeps its state when its other fields are stored.
pub kept :
    (w : World) (p : Ptr) (i j : Invitation)
    → w.invitations p ≡ some i
    → j.state ≡ i.state
    → IsDead (w.invitations p)
    → IsDead (some j)
kept w p i j e s (inl n) = absurd (none-ne-some (sym n ∙ e))
kept w p i j e s (inr (k, l, c)) = inr (j, refl, s ∙ (states (sym e ∙ l) ∙ c))
  where
    states : some i ≡ some k → i.state ≡ k.state
    states h = cc

pub count-cases : (n : ℕ) → (n ≡ 0) ⊎ ((m : ℕ) × (n ≡ suc m))
count-cases zero = inl refl
count-cases (suc n) = inr (n, refl)

pub inv_ref-Same : (p : Ptr) → Keeps SameOp (inv_ref p)
unfolding inv_ref load_invitation store_invitation
inv_ref-Same p = record {
  run = λ w. elim (Option-cases (w.invitations p)) [
    | inl e ↦ rw e tt
    | inr (i, e) ↦
        rw e (
          stored w p (some (record i { ref_count = i.ref_count + 1 })) λ h d. kept w p i _ e refl d)
  ];
}

-- A new invitation stands at an address that was never used.
pub created :
    (w : World) (i : Invitation)
    → SameOp w (record w {
      grants = (next_grant w.grants).1;
      fresh = w.fresh + 1;
      invitations = update w.invitations w.fresh (some i);
    })
created w i = (
  refl,
  record {
    client_registry = refl;
    player_registry = refl;
    login = refl;
    shut = refl;
    fresh = omega arith;
    sent = ([], refl);
    dead = λ q h d. rw (other q h) d;
  },
  lists w,
)
  where
    other : (q : Ptr) → q < w.fresh → (w.fresh == q) ≡ false
    other q h = ground arith

create_rest : Ptr → Ptr → Ptr → M (Option Ptr)
create_rest s t p = do
  _ ← inv_ref p
  _ ← client_ref s
  _ ← client_ref t
  mutex ← granted
  if mutex then pure (some p) else do store_invitation p none; pure none

create_rest-Same : (s t p : Ptr) → Keeps SameOp (create_rest s t p)
unfolding create_rest
create_rest-Same s t p = search (same_rules, inv_ref-Same, client_ref-Same) depth 30

pub inv_create-Same : (s t : Ptr) (r q : Role) → Keeps SameOp (inv_create s t r q)
unfolding inv_create calloc granted store_invitation create_rest
inv_create-Same s t r q = record {
  run = λ w. elim (Bool-cases (next_grant w.grants).0) [
    | inl g ↦ rw g (
        Ends-after SameOp SameOp SameOp w _ (create_rest s t w.fresh _) same_then
          (created w (new_invitation s t r q)) ((create_rest-Same s t w.fresh).run _))
    | inr g ↦ rw g (quiet refl refl refl refl refl refl refl refl)
  ];
}

-- An invitation that is not dead may be replaced, with a new game beside it.
pub replaced :
    {w w' : World} (p : Ptr) (o o' : Option Invitation)
    → ¬ IsDead (w.invitations p)
    → w'.invitations ≡ update (update w.invitations p o) p o'
    → w'.client_registry ≡ w.client_registry
    → w'.player_registry ≡ w.player_registry
    → w'.semaphores ≡ w.semaphores
    → w'.shut ≡ w.shut
    → w.fresh ≤ w'.fresh
    → w'.sent ≡ w.sent
    → w'.clients ≡ w.clients
    → SameOp w w'
replaced {w} p o o' alive v r l s h f t c = (
  ap (λ x. x.invite_op) s,
  record {
    client_registry = r;
    player_registry = l;
    login = ap (λ x. x.login) s;
    shut = h;
    fresh = f;
    sent = ([], t);
    dead = λ q g d. elim (Bool-cases (p == q)) [
      | inl e ↦ absurd (alive (rw ((==_iff p q).0 e) d))
      | inr e ↦ rw (ap (λ m. m q) v, e) d
    ];
  },
  λ q. rw (ap (λ m. m q) c) (lists w q),
)

accept_open-run :
    (w : World) (p : Ptr) (i : Invitation)
    → ¬ IsDead (w.invitations p)
    → Ends SameOp w (accept_open p i w)
unfolding accept_open new_game place_game calloc granted store_invitation store_game game_create
    game_ref
accept_open-run w p i alive = elim (Bool-cases (next_grant w.grants).0) [
  | inr g ↦ rw g (replaced p _ _ alive refl refl refl refl refl (omega arith) refl refl)
  | inl g ↦ elim (Bool-cases (next_grant (next_grant w.grants).1).0) [
    | inr m ↦ rw (g, m) (replaced p _ _ alive refl refl refl refl refl (omega arith) refl refl)
    | inl m ↦ rw (g, m) (replaced p _ _ alive refl refl refl refl refl (omega arith) refl refl)
  ]
]

alive_open :
    (w : World) (p : Ptr) (i : Invitation)
    → w.invitations p ≡ some i
    → state_eq i.state open_state ≡ true
    → ¬ IsDead (w.invitations p)
alive_open w p i e o (inl n) = none-ne-some (sym n ∙ e)
alive_open w p i e o (inr (k, l, c)) = closed_differs k.state (states (sym e ∙ l)) c
  where
    states : some i ≡ some k → state_eq k.state open_state ≡ true
    states h = rw (← fields h) o
      where
        fields : some i ≡ some k → i.state ≡ k.state
        fields g = cc

    closed_differs : (s : InvitationState) → state_eq s open_state ≡ true → s ≢ closed_state
    closed_differs s a b = ground arith

pub inv_accept-Same : (i : Option Ptr) → Keeps SameOp (inv_accept i)
unfolding inv_accept load_invitation
inv_accept-Same none = done failure
inv_accept-Same (some p) = record {
  run = λ w. elim (Option-cases (w.invitations p)) [
    | inl e ↦ rw e tt
    | inr (i, e) ↦ elim (Bool-cases (state_eq i.state open_state)) [
      | inl o ↦ rw (e, o) (accept_open-run w p i (alive_open w p i e o))
      | inr o ↦ rw (e, o) (quiet refl refl refl refl refl refl refl refl)
    ]
  ];
}
