-- ===== src/Client/Offers.antt =====
-- src/client.c: making, revoking, declining and accepting an invitation.
pub mod Creating
pub mod Telling
pub mod Offering
pub mod Making
pub mod Touching
pub mod Declining
pub mod Losing
pub mod Undoing
pub mod Accepting
pub mod Stuck
use jeux_game_server.Prelude.{ℕ, Bool, false, not, Option, none, some, ◌==◌, if◌then◌else◌, length}
use jeux_game_server.Game.{
  Role, null_role, first_player_role, role_eq, role_code, Status, success, failure,
}
use jeux_game_server.Game.Text.{Text, game_unparse_state}
use jeux_game_server.Protocol.{invited_pkt, revoked_pkt, declined_pkt, accepted_pkt}
use jeux_game_server.World.{
  Ptr, M, pure, ◌>>=◌, ◌>>◌, present, load_client, load_game, sem_wait, sem_post, new_header,
}
use jeux_game_server.Player.{player_get_name}
use jeux_game_server.Invitation.{
  inv_create, inv_unref, inv_close, inv_accept, inv_get_source, inv_get_target, inv_get_game,
  inv_get_target_role,
}
use jeux_game_server.Client.Packets.{client_send_packet}
use jeux_game_server.Client.Invites.{
  client_get_invitation, client_get_invitation_id, client_add_invitation, client_remove_invitation,
}

abbrev pub wait_op : M (Unit {0})
wait_op = sem_wait (λ s. s.invite_op) (λ n s. record s { invite_op = n })

abbrev pub post_op : M (Unit {0})
post_op = sem_post (λ s. s.invite_op) (λ n s. record s { invite_op = n })

-- sem_post and a return.
unfoldable pub leave : {A : Type 0} → A → M A
leave a = post_op >> pure a

-- Two pointers, of which the first may be NULL.
abbrev pub is_ptr : Option Ptr → Ptr → Bool
is_ptr none p = false
is_ptr (some q) p = q == p

module _ (again : Ptr → M Status) where
  -- Once both lists have the invitation: the INVITED packet and the return.
  unfoldable pub announce : Ptr → Ptr → Role → Ptr → Option ℕ → Option ℕ → M (Option ℕ)
  announce source target target_role invite source_id target_id = do
    c ← load_client source
    name ← player_get_name (← present c.player)
    header ← new_header invited_pkt target_id (role_code target_role) (length name)
    _ ← client_send_packet target header (some name)
    inv_unref again invite
    leave source_id

  -- The branch for an invitation that was created.
  unfoldable pub offer : Ptr → Ptr → Role → Ptr → M (Option ℕ)
  offer source target target_role invite = do
    source_id ← client_add_invitation source invite
    elim source_id [
      | none ↦ do inv_unref again invite; leave none
      | some s ↦ do
        target_id ← client_add_invitation target invite
        elim target_id [
          | none ↦ leave none
          | some t ↦ announce source target target_role invite (some s) (some t)
        ]
    ]

  unfoldable pub client_make_invitation :
      (source target : Ptr) (source_role target_role : Role) → M (Option ℕ)
  client_make_invitation source target source_role target_role = do
    wait_op
    invite ← inv_create source target source_role target_role
    elim invite [ none ↦ leave none | some i ↦ offer source target target_role i ]

  -- Removing an invitation from both lists, where each failure is an error.
  unfoldable pub remove_both : Ptr → Ptr → Ptr → M Status
  remove_both client other inv = do
    mine ← client_remove_invitation again client inv
    elim mine [
      | none ↦ leave failure
      | some _ ↦ do
        theirs ← client_remove_invitation again other inv
        elim theirs [ none ↦ leave failure | some _ ↦ leave success ]
    ]

  -- The branch for an invitation that was closed.
  unfoldable pub revoke_closed : Ptr → Ptr → M Status
  revoke_closed client inv = do
    target ← inv_get_target (some inv)
    target_id ← client_get_invitation_id target inv
    header ← new_header revoked_pkt target_id 0 0
    other ← present target
    ret ← client_send_packet other header none
    elim ret [ failure ↦ leave failure | success ↦ remove_both client other inv ]

  unfoldable pub client_revoke_invitation : Ptr → ℕ → M Status
  client_revoke_invitation client id = do
    wait_op
    inv ← client_get_invitation client id
    closed ← inv_close inv null_role
    elim closed [ failure ↦ leave failure | success ↦ do i ← present inv; revoke_closed client i ]

  -- The branch for an invitation that was closed: no later failure is reported.
  unfoldable pub decline_closed : Ptr → Ptr → M Status
  decline_closed client inv = do
    source ← inv_get_source (some inv)
    source_id ← client_get_invitation_id source inv
    header ← new_header declined_pkt source_id 0 0
    other ← present source
    _ ← client_send_packet other header none
    _ ← client_remove_invitation again client inv
    _ ← client_remove_invitation again other inv
    leave success

  unfoldable pub client_decline_invitation : Ptr → ℕ → M Status
  client_decline_invitation client id = do
    wait_op
    inv ← client_get_invitation client id
    closed ← inv_close inv null_role
    elim closed [ failure ↦ leave failure | success ↦ do i ← present inv; decline_closed client i ]

abbrev pub text_length : Option Text → ℕ
text_length none = 0
text_length (some s) = length s

-- What the caller's string, which is NULL at first, points to in the end.
pub data GameString : Type 0 where
  no_string : GameString
  game_string : Text → GameString
  freed_string : GameString

-- The branch for an invitation that was accepted: the status, and what is stored through `strp`.
-- Where the packet cannot be sent the text is freed, and `strp` may still point to it.
unfoldable pub accept_game : Option Ptr → M (Status × GameString)
accept_game inv = do
  game ← inv_get_game inv
  source ← inv_get_source inv
  i ← present inv
  source_id ← client_get_invitation_id source i
  role ← inv_get_target_role inv
  g ← load_game (← present game)
  let first = role_eq role first_player_role
  let source_state = if first then none else some (game_unparse_state g)
  header ← new_header accepted_pkt source_id 0 (text_length source_state)
  ret ← client_send_packet (← present source) header source_state
  let strp = if first then game_string (game_unparse_state g) else no_string
  let freed = if first then freed_string else no_string
  elim ret [ failure ↦ leave (failure, freed) | success ↦ leave (success, strp) ]

unfoldable pub client_accept_invitation : Ptr → ℕ → M (Status × GameString)
client_accept_invitation client id = do
  wait_op
  inv ← client_get_invitation client id
  target ← inv_get_target inv
  if not (is_ptr target client) then leave (failure, no_string) else do
    accepted ← inv_accept inv
    elim accepted [ failure ↦ leave (failure, no_string) | success ↦ accept_game inv ]
