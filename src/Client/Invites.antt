-- ===== src/Client/Invites.antt =====
-- src/client.c: the list of invitations of a client.
pub mod Adding
pub mod Removing
use jeux_game_server.Prelude.{
  ℕ, Bool, true, false, not, Option, none, some, List, [], ◌∷◌, ◌==◌, if◌then◌else◌,
}
use jeux_game_server.Game.{Status}
use jeux_game_server.World.{
  Ptr, InvitationNode, M, pure, ◌>>=◌, ◌>>◌, fail, present, load_client, store_client, granted,
  sem_wait, sem_post,
}
use jeux_game_server.Client.Object.{lock_client, unlock_client}
use jeux_game_server.Client.Ids.{get_available_id, purge_id}
use jeux_game_server.Invitation.{inv_ref, inv_unref}

-- The walk for an invitation: the ID of its node.
unfoldable pub find_id : List InvitationNode → Ptr → Option ℕ
find_id [] inv = none
find_id (n ∷ nodes) inv = if n.invitation == inv then n.id else find_id nodes inv

-- node->id == id, where an ID of -1 is `none`.
abbrev pub id_is : Option ℕ → ℕ → Bool
id_is none id = false
id_is (some n) id = n == id

-- The walk for an ID: the invitation of its node.
unfoldable pub find_invitation : List InvitationNode → ℕ → Option Ptr
find_invitation [] id = none
find_invitation (n ∷ nodes) id =
    if id_is n.id id then some n.invitation else find_invitation nodes id

unfoldable pub client_get_invitation_id : Option Ptr → Ptr → M (Option ℕ)
client_get_invitation_id client inv = do
  p ← present client
  lock_client p
  c ← load_client p
  unlock_client p
  pure (find_id c.invite_head inv)

unfoldable pub client_get_invitation : Ptr → ℕ → M (Option Ptr)
client_get_invitation p id = do
  lock_client p
  c ← load_client p
  unlock_client p
  pure (find_invitation c.invite_head id)

abbrev pub wait_invite : M (Unit {0})
wait_invite = sem_wait (λ s. s.invite) (λ n s. record s { invite = n })

abbrev pub post_invite : M (Unit {0})
post_invite = sem_post (λ s. s.invite) (λ n s. record s { invite = n })

-- The node's memory is used without a test.
unfoldable pub client_add_invitation : Ptr → Ptr → M (Option ℕ)
client_add_invitation p inv = do
  wait_invite
  node ← granted
  if node then pure tt else fail
  id ← get_available_id p
  _ ← inv_ref inv
  c ← load_client p
  lock_client p
  d ← load_client p
  store_client p
      (some (record d { invite_head = record { id = id; invitation = inv } ∷ c.invite_head }))
  unlock_client p
  post_invite
  pure id

-- The list without the first node of an invitation.
unfoldable pub unlink : List InvitationNode → Ptr → List InvitationNode
unlink [] inv = []
unlink (n ∷ nodes) inv = if n.invitation == inv then nodes else n ∷ unlink nodes inv

-- Whether an invitation is in the list.
unfoldable pub holds : List InvitationNode → Ptr → Bool
holds [] inv = false
holds (n ∷ nodes) inv = if n.invitation == inv then true else holds nodes inv

module _ (again : Ptr → M Status) where
  unfoldable pub client_remove_invitation : Ptr → Ptr → M (Option ℕ)
  client_remove_invitation p inv = do
    wait_invite
    c ← load_client p
    if not (holds c.invite_head inv) then (post_invite >> pure none) else do
      store_client p (some (record c { invite_head = unlink c.invite_head inv }))
      inv_unref again inv
      purge_id p (find_id c.invite_head inv)
      post_invite
      pure (find_id c.invite_head inv)
