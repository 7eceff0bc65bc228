-- ===== src/Invitation.antt =====
-- src/invitation.c, with the reference counting of the game that an invitation holds.
pub mod States
use jeux_game_server.Prelude.{
  ℕ, zero, suc, ◌+◌, ◌≡◌, Bool, true, false, not, ◌&&◌, Option, none, some, List, [], ◌∷◌,
  if◌then◌else◌, ◌==◌,
}
use jeux_game_server.Game.{
  Role, null_role, role_eq, Game, Status, success, failure, game_create, game_unref, game_resign,
}
use jeux_game_server.World.{
  Ptr, Invitation, InvitationState, open_state, accepted_state, closed_state, World, Run, M, pure,
  ◌>>=◌, ◌>>◌, fail, and_then, present, load_invitation, store_invitation, load_game, store_game,
  granted, calloc,
}
use jeux_game_server.Player.{drop_count}
use jeux_game_server.Client.Object.{client_ref, client_unref}

-- The game in the memory that calloc gave, unless its mutex cannot be had.
unfoldable pub place_game : Ptr → Option Game → M (Option Ptr)
place_game p none = pure none
place_game p (some g) = do store_game p (some g); pure (some p)

-- A new game on the heap.
unfoldable pub new_game : M (Option Ptr)
unfolding place_game
new_game = do
  p ← calloc
  elim p [ none ↦ pure none | some p ↦ do mutex ← granted; place_game p (game_create true mutex) ]

-- game_unref on the heap.
unfoldable pub unref_game : Ptr → M (Unit {0})
unref_game p = do g ← load_game p; _ ← drop_count g.ref_count; store_game p (game_unref g)

unfoldable pub inv_ref : Ptr → M Ptr
inv_ref p = do
  i ← load_invitation p
  store_invitation p (some (record i { ref_count = i.ref_count + 1 }))
  pure p

-- An invitation as calloc leaves it, once its two clients and their roles are stored.
abbrev pub new_invitation : Ptr → Ptr → Role → Role → Invitation
new_invitation source target source_role target_role = record {
  state = open_state;
  ref_count = 0;
  source = source;
  target = target;
  game = none;
  source_role = source_role;
  target_role = target_role;
}

-- Where the mutex cannot be had the object is freed, and the clients keep their references.
unfoldable pub inv_create : (source target : Ptr) (source_role target_role : Role) → M (Option Ptr)
inv_create source target source_role target_role = do
  p ← calloc
  elim p [
    | none ↦ pure none
    | some p ↦ do
      store_invitation p (some (new_invitation source target source_role target_role))
      _ ← inv_ref p
      _ ← client_ref source
      _ ← client_ref target
      mutex ← granted
      if mutex then pure (some p) else do store_invitation p none; pure none
  ]

abbrev pub unref_held : Option Ptr → M (Unit {0})
unref_held none = pure tt
unref_held (some g) = unref_game g

module _ (again : Ptr → M Status) where
  unfoldable pub inv_unref : Ptr → M (Unit {0})
  inv_unref p = do
    i ← load_invitation p
    left ← drop_count i.ref_count
    store_invitation p (some (record i { ref_count = left }))
    if not (left == 0) then pure tt else do
      unref_held i.game
      client_unref again i.source
      client_unref again i.target
      store_invitation p none

unfoldable pub inv_get_source : Option Ptr → M (Option Ptr)
inv_get_source none = pure none
inv_get_source (some p) = do i ← load_invitation p; pure (some i.source)

unfoldable pub inv_get_target : Option Ptr → M (Option Ptr)
inv_get_target none = pure none
inv_get_target (some p) = do i ← load_invitation p; pure (some i.target)

-- No NULL test here.
unfoldable pub inv_get_source_role : Option Ptr → M Role
inv_get_source_role p = do i ← load_invitation (← present p); pure i.source_role

unfoldable pub inv_get_target_role : Option Ptr → M Role
inv_get_target_role p = do i ← load_invitation (← present p); pure i.target_role

unfoldable pub inv_get_game : Option Ptr → M (Option Ptr)
inv_get_game none = pure none
inv_get_game (some p) = do i ← load_invitation p; pure i.game

abbrev pub state_eq : InvitationState → InvitationState → Bool
state_eq open_state open_state = true
state_eq accepted_state accepted_state = true
state_eq closed_state closed_state = true
state_eq _ _ = false

-- The branch for an open invitation.
unfoldable pub accept_open : Ptr → Invitation → M Status
accept_open p i = do
  store_invitation p (some (record i { state = accepted_state }))
  game ← new_game
  store_invitation p (some (record i { state = accepted_state; game = game }))
  elim game [ none ↦ pure failure | some _ ↦ pure success ]

unfoldable pub inv_accept : Option Ptr → M Status
unfolding accept_open
inv_accept none = pure failure
inv_accept (some p) = do
  i ← load_invitation p
  if not (state_eq i.state open_state) then pure failure else accept_open p i

-- The branch for an accepted invitation: its game is resigned, and the result of that is dropped.
unfoldable pub close_accepted : Ptr → Invitation → Role → M Status
close_accepted p i role = elim i.game [
  | none ↦ pure failure
  | some game ↦ if role_eq role null_role then pure failure else do
    g ← load_game game
    store_game game (some (game_resign g role).0)
    store_invitation p (some (record i { state = closed_state }))
    pure success
]

-- The branch for an open invitation.
unfoldable pub close_open : Ptr → Invitation → Role → M Status
close_open p i role = if not (role_eq role null_role) then pure failure else elim i.game [
  | some _ ↦ pure failure
  | none ↦ do store_invitation p (some (record i { state = closed_state })); pure success
]

unfoldable pub inv_close : Option Ptr → Role → M Status
unfolding close_accepted close_open
inv_close none role = pure failure
inv_close (some p) role = do
  i ← load_invitation p
  elim i.state [
    | open_state ↦ close_open p i role
    | accepted_state ↦ close_accepted p i role
    | closed_state ↦ pure failure
  ]
