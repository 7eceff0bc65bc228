-- ===== src/PlayerRegistry/Adding.antt =====
-- src/player_registry.c: the player that a new name gets, and one more reference to a known one.
use jeux_game_server.Prelude.{◌+◌, ◌<◌, ◌≡◌, refl, false, some, [], ◌∷◌, ◌++◌, ◌==◌, arith}
use jeux_game_server.Game.Text.{Text}
use jeux_game_server.World.{
  Ptr, Player, World, ok, update, load_player, store_player, calloc, granted,
}
use jeux_game_server.Player.{player_ref, player_create, player_initial_rating}
use jeux_game_server.PlayerRegistry.{append_node, register_new}
use jeux_game_server.World.Changing.{same_pointer}

-- The player that a new name gets, once the registry and the caller refer to it.
abbrev pub new_player : Text → Player
new_player name = record { name = name; ref_count = 2; rating = player_initial_rating }

-- The world in which a name that is new has its player.
abbrev pub added_in : World → Text → World
added_in w name = record w {
  players =
      update
        (update
          (update w.players w.fresh
            (some (record { name = name; ref_count = 0; rating = player_initial_rating })))
          w.fresh (some (record { name = name; ref_count = 1; rating = player_initial_rating })))
        w.fresh (some (new_player name));
  fresh = w.fresh + 1;
  player_registry = record {
    nodes = w.player_registry.nodes ++ w.fresh ∷ [];
    length = w.player_registry.length + 1;
  };
  grants = [];
}

pub register_new-adds :
    (w : World) (name : Text)
    → w.grants ≡ []
    → register_new name w ≡ ok (some w.fresh) (added_in w name)
unfolding register_new player_create calloc granted store_player player_ref load_player append_node
register_new-adds w name e = rw (e, same_pointer w.fresh, same_pointer w.fresh) refl

abbrev pub known_in : World → Ptr → Player → World
known_in w p x = record w {
  players = update w.players p (some (record x { ref_count = x.ref_count + 1 }));
}

pub player_ref-known :
    (w : World) (p : Ptr) (x : Player)
    → w.players p ≡ some x
    → player_ref p w ≡ ok p (known_in w p x)
unfolding player_ref load_player store_player
player_ref-known w p x e = rw e refl

pub added-old :
    (w : World) (name : Text) (q : Ptr) → q < w.fresh → (added_in w name).players q ≡ w.players q
added-old w name q h = rw other refl
  where
    other : (w.fresh == q) ≡ false
    other = ground arith

pub added-new :
    (w : World) (name : Text) → (added_in w name).players w.fresh ≡ some (new_player name)
added-new w name = rw (same_pointer w.fresh) refl
