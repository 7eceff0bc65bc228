-- ===== src/Client/Session.antt =====
-- src/client.c: client_login and client_logout.
pub mod Relogin
pub mod Searching
pub mod Login
use jeux_game_server.Prelude.{
  ℕ, zero, suc, Bool, false, Option, none, some, List, [], ◌∷◌, ◌||◌, if◌then◌else◌, text_eq,
}
use jeux_game_server.Game.{Status, success, failure}
use jeux_game_server.Game.Text.{Text}
use jeux_game_server.World.{
  Ptr, InvitationNode, Client, client_logged_in, client_logged_out, M, pure, ◌>>=◌, ◌>>◌, fail,
  present, load_client, store_client, sem_wait, sem_post,
}
use jeux_game_server.Player.{player_ref, player_unref, player_get_name}
use jeux_game_server.Invitation.{inv_get_source, inv_get_game}
use jeux_game_server.ClientRegistry.{creg_all_players}
use jeux_game_server.Client.Object.{lock_client, unlock_client}
use jeux_game_server.Client.Offers.{client_revoke_invitation, client_decline_invitation, is_ptr}
use jeux_game_server.Client.Play.{client_resign_game}

abbrev pub wait_login : M (Unit {0})
wait_login = sem_wait (λ s. s.login) (λ n s. record s { login = n })

abbrev pub post_login : M (Unit {0})
post_login = sem_post (λ s. s.login) (λ n s. record s { login = n })

abbrev pub wait_logout : M (Unit {0})
wait_logout = sem_wait (λ s. s.logout) (λ n s. record s { logout = n })

abbrev pub post_logout : M (Unit {0})
post_logout = sem_post (λ s. s.logout) (λ n s. record s { logout = n })

-- The loop over the players that are logged in; it goes on after a match, to drop every reference.
unfoldable pub name_taken : List Ptr → Text → Bool → M Bool
name_taken [] name found = pure found
name_taken (p ∷ players) name found = do
  n ← player_get_name p
  player_unref p
  name_taken players name (text_eq n name || found)

-- The branch for a player that no client has.
unfoldable pub login_as : Ptr → Ptr → M Status
login_as client player = do
  lock_client client
  c ← load_client client
  store_client client (some (record c { player = some player }))
  _ ← player_ref player
  unlock_client client
  d ← load_client client
  store_client client (some (record d { logged_in = client_logged_in }))
  post_login
  pure success

-- The branch for a client that is logged out.
unfoldable pub login_free : Ptr → Ptr → M Status
login_free client player = do
  players ← creg_all_players
  players ← present players
  name ← player_get_name player
  taken ← name_taken players name false
  if taken then (post_login >> pure failure) else login_as client player

-- A client that is logged in already is refused with the semaphore kept.
unfoldable pub client_login : Ptr → Ptr → M Status
client_login client player = do
  wait_login
  c ← load_client client
  elim c.logged_in [
    | client_logged_in ↦ pure failure
    | client_logged_out ↦ login_free client player
  ]

-- An ID of -1 names no node.
abbrev pub with_id : Option ℕ → (ℕ → M Status) → M Status
with_id none f = fail
with_id (some id) f = f id

module _ (again : Ptr → M Status) where
  -- One round of the loop: a game is resigned, an offer is revoked or declined.
  unfoldable pub give_up : Ptr → InvitationNode → M Status
  give_up client node = do
    game ← inv_get_game (some node.invitation)
    elim game [
      | some _ ↦ with_id node.id (client_resign_game again client)
      | none ↦ do
        source ← inv_get_source (some node.invitation)
        if is_ptr source client
            then with_id node.id (client_revoke_invitation again client)
            else with_id node.id (client_decline_invitation again client)
    ]

  -- The nodes are those of the list at the start: each round frees at most its own.
  unfoldable pub give_up_all : Ptr → List InvitationNode → M (Unit {0})
  give_up_all client [] = pure tt
  give_up_all client (node ∷ nodes) = do _ ← give_up client node; give_up_all client nodes

  -- The branch for a client that is logged in. Its `player` stays as it is.
  unfoldable pub logout_in : Ptr → Client → M Status
  logout_in client c = do
    _ ← player_get_name (← present c.player)
    wait_logout
    give_up_all client c.invite_head
    player_unref (← present c.player)
    d ← load_client client
    store_client client (some (record d { logged_in = client_logged_out }))
    post_logout
    pure success

  unfoldable pub logout_step : Ptr → M Status
  logout_step client = do
    c ← load_client client
    elim c.logged_in [ client_logged_out ↦ pure failure | client_logged_in ↦ logout_in client c ]

-- client_logout calls itself through client_unref when a client is freed while it is logged in. The
-- first argument bounds how deep such calls go; a call beyond it is a fault.
unfoldable pub client_logout : ℕ → Ptr → M Status
unfolding logout_step
client_logout zero client = fail
client_logout (suc depth) client = logout_step (client_logout depth) client
