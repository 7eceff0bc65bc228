-- ===== src/Client/Session/Relogin.antt =====
-- src/client.c: client_login on a client that is logged in, and the logins after it.
use jeux_game_server.Prelude.{ℕ, ◌≡◌, Option}
use jeux_game_server.Game.{Role, Status}
use jeux_game_server.Game.Text.{Text}
use jeux_game_server.World.{Ptr, Client, World, ok}
use jeux_game_server.World.Keeps.{Keeps}
use jeux_game_server.Client.Offers.{
  client_make_invitation, client_revoke_invitation, client_decline_invitation,
  client_accept_invitation, GameString,
}
use jeux_game_server.Client.Play.{client_resign_game, client_make_move}
use jeux_game_server.Client.Session.{client_logout}

-- The world in which nobody may pass the semaphore CLIENT_LOGIN_SEM.
abbrev pub without_login : World → World
without_login w = record w { semaphores = record w.semaphores { login = 0 } }

-- An operation of a client on invitations and games, or its logout, that returns, with success or
-- failure. `depth` bounds the logouts inside a logout.
pub data Operation (depth : ℕ) (w w' : World) : Type 0 where
  makes :
      (s t : Ptr) (a b : Role) {r : Option ℕ}
      → client_make_invitation (client_logout depth) s t a b w ≡ ok r w'
      → Operation depth w w'
  revokes :
      (c : Ptr) (id : ℕ) {r : Status}
      → client_revoke_invitation (client_logout depth) c id w ≡ ok r w'
      → Operation depth w w'
  declines :
      (c : Ptr) (id : ℕ) {r : Status}
      → client_decline_invitation (client_logout depth) c id w ≡ ok r w'
      → Operation depth w w'
  accepts :
      (c : Ptr) (id : ℕ) {r : Status × GameString}
      → client_accept_invitation c id w ≡ ok r w'
      → Operation depth w w'
  resigns :
      (c : Ptr) (id : ℕ) {r : Status}
      → client_resign_game (client_logout depth) c id w ≡ ok r w'
      → Operation depth w w'
  moves :
      (c : Ptr) (id : ℕ) (m : Text) {r : Status}
      → client_make_move (client_logout depth) c id m w ≡ ok r w'
      → Operation depth w w'
  logs_out : (c : Ptr) {r : Status} → client_logout depth c w ≡ ok r w' → Operation depth w w'

-- Any number of operations, one after the other.
pub data Operations (depth : ℕ) : World → World → Type 0 where
  before_any : {w : World} → Operations depth w w
  then_one : {u v w : World} → Operations depth u v → Operation depth v w → Operations depth u w
