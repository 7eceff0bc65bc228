-- ===== src/Client/Serving/Login.antt =====
-- src/player_registry.c and src/client.c: preg_register and client_login, as a request calls them.
use jeux_game_server.Prelude.{refl, Bool, false, none, some, List, [], ◌∷◌}
use jeux_game_server.Game.{success, failure}
use jeux_game_server.Game.Text.{Text}
use jeux_game_server.World.{Ptr}
use jeux_game_server.World.Keeps.{Keeps, branch}
use jeux_game_server.Player.{player_create}
use jeux_game_server.PlayerRegistry.{find_node, append_node, register_new, preg_register}
use jeux_game_server.ClientRegistry.Serving.{creg_all_players-Serves}
use jeux_game_server.Client.Session.{post_login, name_taken, login_as, login_free, client_login}
use jeux_game_server.Client.Lists.{Moves-fields}
use jeux_game_server.Client.Outside.{SameOp}
use jeux_game_server.Client.Balance.{
  calloc-Same, granted-Same, player_ref-Same, player_unref-Same, load_client-Same,
  store_player-Same, on_option, then_, done,
}
use jeux_game_server.Client.Balance.Locks.{
  player_get_name-Same, lock_client-Same, unlock_client-Same,
}
use jeux_game_server.Client.Serving.{
  Serves, kept, and_serve, serve_done, serve_read, serve_wait, serve_post, serve_present,
  serve_option, serve_state, serve_change,
}

player_create-Same : (name : Text) → Keeps SameOp (player_create name)
unfolding player_create
player_create-Same name = then_ _ _ calloc-Same λ p.
    on_option p _ _ (done none)
      λ p. then_ _ _ (store_player-Same p _) λ _. then_ _ _ (player_ref-Same p) λ q. done (some q)

find_node-Serves : (nodes : List Ptr) (name : Text) → Keeps Serves (find_node nodes name)
unfolding find_node
find_node-Serves [] name = serve_done none
find_node-Serves (p ∷ nodes) name =
    and_serve _ _ (kept (player_get_name-Same p))
      λ n. branch _ (serve_done (some p)) (find_node-Serves nodes name)

append_node-Serves : (p : Ptr) → Keeps Serves (append_node p)
unfolding append_node
append_node-Serves p = record {
  run = λ w. (
    record { lists = λ a. a; op = λ e. e },
    record { clients = refl; length = refl; login_queue = refl },
  );
}

register_new-Serves : (name : Text) → Keeps Serves (register_new name)
unfolding register_new
register_new-Serves name = and_serve _ _ (kept (player_create-Same name)) λ p.
    serve_option p _ _ (serve_done none) λ p. and_serve _ _ (kept granted-Same) λ node.
      branch _ (serve_done none) (
        and_serve _ _ (append_node-Serves p)
          λ _. and_serve _ _ (kept (player_ref-Same p)) λ q. serve_done (some q))

pub preg_register-Serves : (name : Text) → Keeps Serves (preg_register name)
unfolding preg_register
preg_register-Serves name = and_serve _ _ (serve_read (λ w. w.player_registry.nodes)) λ nodes.
    and_serve _ _ (find_node-Serves nodes name) λ found.
      serve_option found _ _ (register_new-Serves name)
        λ p. and_serve _ _ (kept (player_ref-Same p)) λ q. serve_done (some q)

name_taken-Serves :
    (players : List Ptr) (name : Text) (found : Bool) → Keeps Serves (name_taken players name found)
unfolding name_taken
name_taken-Serves [] name found = serve_done found
name_taken-Serves (p ∷ players) name found =
    and_serve _ _ (kept (player_get_name-Same p))
      λ n. and_serve _ _ (kept (player_unref-Same p)) λ _. name_taken-Serves players name _

post_login-Serves : Keeps Serves post_login
post_login-Serves = serve_post _ _ λ n s. refl

login_as-Serves : (client player : Ptr) → Keeps Serves (login_as client player)
unfolding login_as
login_as-Serves client player = and_serve _ _ (kept (lock_client-Same client)) λ _.
    serve_change client _ _ (λ c. Moves-fields c _ refl refl refl refl)
      λ c. and_serve _ _ (kept (player_ref-Same player)) λ _.
        and_serve _ _ (kept (unlock_client-Same client)) λ _.
          serve_change client _ _ (λ c. Moves-fields c _ refl refl refl refl)
            λ d. and_serve _ _ post_login-Serves λ _. serve_done success

login_free-Serves : (client player : Ptr) → Keeps Serves (login_free client player)
unfolding login_free
login_free-Serves client player = and_serve _ _ creg_all_players-Serves λ players.
    and_serve _ _ (serve_present players) λ players.
      and_serve _ _ (kept (player_get_name-Same player)) λ name.
        and_serve _ _ (name_taken-Serves players name false) λ taken.
          branch _ (and_serve _ _ post_login-Serves λ _. serve_done failure)
            (login_as-Serves client player)

pub client_login-Serves : (client player : Ptr) → Keeps Serves (client_login client player)
unfolding client_login
client_login-Serves client player = and_serve _ _ (serve_wait _ _ λ n s. refl) λ _.
    and_serve _ _ (kept (load_client-Same client))
      λ c. serve_state c.logged_in _ _ (serve_done failure) (login_free-Serves client player)
