-- ===== src/Invitation/States.antt =====
-- src/invitation.c: what inv_accept and inv_close do to an invitation in each of its states.
use jeux_game_server.Prelude.{
  ◌+◌, ◌≡◌, sym, ◌∙◌, ◌≢◌, ◌⊎◌, inl, inr, false, Option, none, some, [], arith, replicate,
  Option-cases,
}
use jeux_game_server.Game.{
  Role, null_role, first_player_role, Game, Status, success, failure, game_resign, game_create,
  game_ref,
}
use jeux_game_server.World.{
  Ptr, Invitation, InvitationState, open_state, accepted_state, closed_state, World, Run, ok, fault,
  update, load_invitation, store_invitation, load_game, store_game, granted, calloc,
}
use jeux_game_server.Invitation.{inv_close, inv_accept, new_game}

-- The world in which an invitation is closed, and nothing else is changed.
abbrev pub closed_in : World → Ptr → Invitation → World
closed_in w p i = record w {
  invitations = update w.invitations p (some (record i { state = closed_state }));
}

-- How a call of inv_close on an invitation ends.
pub data Closing (w : World) (p : Ptr) (i : Invitation) (role : Role) : Run Status → Type 0 where
  withdrawn :
      i.state ≡ open_state
      → role ≡ null_role
      → i.game ≡ none
      → Closing w p i role (ok success (closed_in w p i))
  resigned :
      {a : Ptr} {g : Game}
      → i.state ≡ accepted_state
      → role ≢ null_role
      → i.game ≡ some a
      → w.games a ≡ some g
      → Closing w p i role (
          ok success
            (closed_in (record w { games = update w.games a (some (game_resign g role).0) }) p i))
  refused_closed : i.state ≡ closed_state → Closing w p i role (ok failure w)
  refused_open :
      i.state ≡ open_state
      → (role ≢ null_role) ⊎ (i.game ≢ none)
      → Closing w p i role (ok failure w)
  refused_accepted :
      i.state ≡ accepted_state
      → (role ≡ null_role) ⊎ (i.game ≡ none)
      → Closing w p i role (ok failure w)
  dangling :
      {a : Ptr}
      → i.state ≡ accepted_state
      → i.game ≡ some a
      → w.games a ≡ none
      → Closing w p i role fault

module _ (w : World) (p : Ptr) (i : Invitation) (role : Role) (e : w.invitations p ≡ some i) where
  close-withdrawn :
      i.state ≡ open_state
      → role ≡ null_role
      → i.game ≡ none
      → inv_close (some p) role w ≡ ok success (closed_in w p i)
  unfolding inv_close load_invitation store_invitation
  close-withdrawn s r g = ground arith

  close-resigned :
      (a : Ptr) (g : Game)
      → i.state ≡ accepted_state
      → role ≢ null_role
      → i.game ≡ some a
      → w.games a ≡ some g
      → inv_close (some p) role w
        ≡ ok success
            (closed_in (record w { games = update w.games a (some (game_resign g role).0) }) p i)
  unfolding inv_close load_invitation store_invitation load_game store_game
  close-resigned a g s r f l = ground arith

  close-dangling :
      (a : Ptr)
      → i.state ≡ accepted_state
      → role ≢ null_role
      → i.game ≡ some a
      → w.games a ≡ none
      → inv_close (some p) role w ≡ fault
  unfolding inv_close load_invitation store_invitation load_game store_game
  close-dangling a s r f l = ground arith

  close-refused :
      (i.state ≡ closed_state)
        ⊎ ((i.state ≡ open_state) × ((role ≢ null_role) ⊎ (i.game ≢ none)))
        ⊎ ((i.state ≡ accepted_state) × ((role ≡ null_role) ⊎ (i.game ≡ none)))
      → inv_close (some p) role w ≡ ok failure w
  unfolding inv_close load_invitation
  close-refused h = ground arith

null-cases : (r : Role) → (r ≡ null_role) ⊎ (r ≢ null_role)
null-cases r = ground arith

state-cases : (s : InvitationState) → (s ≡ open_state) ⊎ (s ≡ accepted_state) ⊎ (s ≡ closed_state)
state-cases s = ground arith

some-ne-none : {o : Option Ptr} {a : Ptr} → o ≡ some a → o ≢ none
some-ne-none e f = cc

accepted-Closing :
    (w : World) (p : Ptr) (i : Invitation) (role : Role)
    → w.invitations p ≡ some i
    → i.state ≡ accepted_state
    → Closing w p i role (inv_close (some p) role w)
accepted-Closing w p i role e s = elim (null-cases role) [
  | inl r ↦ rw (close-refused w p i role e (inr (inr (s, inl r)))) (refused_accepted s (inl r))
  | inr r ↦ elim (Option-cases i.game) [
    | inl f ↦ rw (close-refused w p i role e (inr (inr (s, inr f)))) (refused_accepted s (inr f))
    | inr (a, f) ↦ elim (Option-cases (w.games a)) [
      | inl l ↦ rw (close-dangling w p i role e a s r f l) (dangling s f l)
      | inr (g, l) ↦ rw (close-resigned w p i role e a g s r f l) (resigned s r f l)
    ]
  ]
]

open-Closing :
    (w : World) (p : Ptr) (i : Invitation) (role : Role)
    → w.invitations p ≡ some i
    → i.state ≡ open_state
    → Closing w p i role (inv_close (some p) role w)
open-Closing w p i role e s = elim (null-cases role) [
  | inr r ↦ rw (close-refused w p i role e (inr (inl (s, inl r)))) (refused_open s (inl r))
  | inl r ↦ elim (Option-cases i.game) [
    | inl f ↦ rw (close-withdrawn w p i role e s r f) (withdrawn s r f)
    | inr (a, f) ↦
        rw (close-refused w p i role e (inr (inl (s, inr (some-ne-none f)))))
          (refused_open s (inr (some-ne-none f)))
  ]
]

-- Whatever the state, the game and the role: an open invitation without a game is closed when no
-- role is given, an accepted one when a role is given, which then resigns; every other call fails
-- and changes nothing, and only a dangling game is a fault.
pub inv_close-Closing :
    (w : World) (p : Ptr) (i : Invitation) (role : Role)
    → w.invitations p ≡ some i
    → Closing w p i role (inv_close (some p) role w)
inv_close-Closing w p i role e = elim (state-cases i.state) [
  | inl s ↦ open-Closing w p i role e s
  | inr (inl s) ↦ accepted-Closing w p i role e s
  | inr (inr s) ↦ rw (close-refused w p i role e (inl s)) (refused_closed s)
]

-- The world in which an invitation is accepted, with what calloc gave for its game.
abbrev pub accepted_in : World → Ptr → Invitation → Option Ptr → World
accepted_in w p i game = record w {
  invitations =
      update (update w.invitations p (some (record i { state = accepted_state }))) p
        (some (record i { state = accepted_state; game = game }));
}

-- The game that an accepted invitation begins with.
abbrev pub first_game : Game
first_game = record {
  rows = replicate 9 null_role;
  ref_count = 1;
  is_over = false;
  current_player = first_player_role;
  winner = null_role;
}

-- How a call of inv_accept ends, where requests for memory and the mutex are met.
pub data Accepting (w : World) (p : Ptr) (i : Invitation) : Run Status → Type 0 where
  accepted :
      i.state ≡ open_state
      → Accepting w p i (
          ok success (record (accepted_in w p i (some w.fresh)) {
            games = update w.games w.fresh (some first_game);
            fresh = w.fresh + 1;
          }))
  not_open : i.state ≢ open_state → Accepting w p i (ok failure w)

pub accept-open :
    (w : World) (p : Ptr) (i : Invitation)
    → w.invitations p ≡ some i
    → w.grants ≡ []
    → i.state ≡ open_state
    → inv_accept (some p) w
      ≡ ok success (record (accepted_in w p i (some w.fresh)) {
        games = update w.games w.fresh (some first_game);
        fresh = w.fresh + 1;
      })
unfolding inv_accept load_invitation store_invitation new_game calloc granted store_game game_create
    game_ref
accept-open w p i e m s = ground arith

accept-refused :
    (w : World) (p : Ptr) (i : Invitation)
    → w.invitations p ≡ some i
    → i.state ≢ open_state
    → inv_accept (some p) w ≡ ok failure w
unfolding inv_accept load_invitation
accept-refused w p i e s = ground arith

not-open : {s t : InvitationState} → s ≡ t → t ≢ open_state → s ≢ open_state
not-open e n f = n (sym e ∙ f)

-- Where memory and a mutex can be had: an open invitation is accepted with a new game in which the
-- first player moves and nobody has moved; any other is refused and nothing is changed.
pub inv_accept-Accepting :
    (w : World) (p : Ptr) (i : Invitation)
    → w.invitations p ≡ some i
    → w.grants ≡ []
    → Accepting w p i (inv_accept (some p) w)
inv_accept-Accepting w p i e m = elim (state-cases i.state) [
  | inl s ↦ rw (accept-open w p i e m s) (accepted s)
  | inr (inl s) ↦ rw (accept-refused w p i e (not-open s λ t. cc)) (not_open (not-open s λ t. cc))
  | inr (inr s) ↦ rw (accept-refused w p i e (not-open s λ t. cc)) (not_open (not-open s λ t. cc))
]
