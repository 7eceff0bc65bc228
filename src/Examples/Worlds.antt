-- ===== src/Examples/Worlds.antt =====
-- Worlds that the tests begin with.
use jeux_game_server.Prelude.{ℕ, false, none, List, [], ◌∷◌, replicate}
use jeux_game_server.Prelude.Int.{ℤ, pos, negsuc}
use jeux_game_server.Game.{first_player_role, second_player_role, Status}
use jeux_game_server.Game.Text.{Text}
use jeux_game_server.Protocol.{Write, written}
use jeux_game_server.World.{Ptr, World, Run, ok, M, pure, ◌>>=◌, FloatUnit, present}
use jeux_game_server.ClientRegistry.Membership.{creg_register}
use jeux_game_server.PlayerRegistry.{preg_register}
use jeux_game_server.Client.Session.{client_login, client_logout}
use jeux_game_server.Client.Offers.{client_make_invitation, client_accept_invitation}
use jeux_game_server.Client.Play.{client_make_move}

abbrev pub int_code : ℤ → ℕ
int_code (pos n) = n
int_code (negsuc n) = 0

-- A float unit that keeps the integers only.
abbrev pub integers : FloatUnit
integers = record {
  of_int = int_code;
  half = 0;
  add = λ a b. a;
  sub = λ a b. a;
  mul = λ a b. a;
  div = λ a b. a;
  pow = λ a b. a;
  to_int = λ n. pos n;
}

abbrev pub plenty : List Write
plenty = replicate 40 (written 100)

abbrev pub start : World
start = record {
  players = λ _. none;
  games = λ _. none;
  invitations = λ _. none;
  clients = λ _. none;
  fresh = 1;
  client_registry = record {
    mutex = false;
    sem = 0;
    length = 0;
    no_new = false;
    clients = replicate 64 none;
    login_queue = 64;
  };
  player_registry = record { nodes = []; length = 0 };
  semaphores = record { login = 1; logout = 1; invite = 1; invite_op = 1; update_elo = 1 };
  float = integers;
  grants = [];
  writes = plenty;
  clock = [];
  sent = [];
  shut = [];
}

abbrev pub alice : Text
alice = b'a' ∷ []

abbrev pub bob : Text
bob = b'b' ∷ []

-- Two clients, each registered and logged in.
abbrev pub two_players : M (Ptr × Ptr)
two_players = do
  a ← creg_register 5
  b ← creg_register 6
  p ← preg_register alice
  q ← preg_register bob
  _ ← client_login (← present a) (← present p)
  _ ← client_login (← present b) (← present q)
  pure ((← present a), (← present b))

-- The first client invites the second, which accepts, and the first holds two cells of the top row.
abbrev pub last_move : M Status
last_move = do
  (a, b) ← two_players
  _ ← client_make_invitation (client_logout 2) a b first_player_role second_player_role
  _ ← client_accept_invitation b 0
  _ ← client_make_move (client_logout 2) a 0 (b'1' ∷ [])
  _ ← client_make_move (client_logout 2) b 0 (b'4' ∷ [])
  _ ← client_make_move (client_logout 2) a 0 (b'2' ∷ [])
  client_make_move (client_logout 2) b 0 (b'5' ∷ b'<' ∷ b'-' ∷ b'O' ∷ [])

abbrev pub after : {A : Type 0} → Run A → World
after (ok a w) = w
after _ = start

-- The two clients, once they are logged in.
abbrev pub lobby : World
lobby = after (two_players start)

-- The game in which the first client is about to win.
abbrev pub last_move_world : World
last_move_world = after (last_move start)
