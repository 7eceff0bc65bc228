-- ===== src/PlayerRegistry.antt =====
-- src/player_registry.c: the players by name.
pub mod Search
pub mod Adding
pub mod Names
use jeux_game_server.Prelude.{
  ◌+◌, Bool, not, Option, none, some, List, [], ◌∷◌, ◌++◌, if◌then◌else◌, text_eq,
}
use jeux_game_server.Game.Text.{Text}
use jeux_game_server.World.{Ptr, PlayerRegistry, M, pure, ◌>>=◌, ◌>>◌, read, write, granted}
use jeux_game_server.Player.{player_ref, player_unref, player_create, player_get_name}

-- `none` where calloc fails.
pub preg_init : Bool → Option PlayerRegistry
preg_init calloc = if calloc then some (record { nodes = []; length = 0 }) else none

-- The walk along the nodes, up to one that has the name.
unfoldable pub find_node : List Ptr → Text → M (Option Ptr)
find_node [] name = pure none
find_node (p ∷ nodes) name = do
  n ← player_get_name p
  if text_eq n name then pure (some p) else find_node nodes name

-- last->next = new_player, or head = new_player.
unfoldable pub append_node : Ptr → M (Unit {0})
append_node p = write λ w. record w {
  player_registry = record {
    nodes = w.player_registry.nodes ++ p ∷ [];
    length = w.player_registry.length + 1;
  };
}

-- The branch for a name that is new.
unfoldable pub register_new : Text → M (Option Ptr)
register_new name = do
  p ← player_create name
  elim p [
    | none ↦ pure none
    | some p ↦ do
      node ← granted
      if not node then pure none else do append_node p; q ← player_ref p; pure (some q)
  ]

unfoldable pub preg_register : Text → M (Option Ptr)
preg_register name = do
  nodes ← read (λ w. w.player_registry.nodes)
  found ← find_node nodes name
  elim found [ some p ↦ do q ← player_ref p; pure (some q) | none ↦ register_new name ]

unref_nodes : List Ptr → M (Unit {0})
unref_nodes [] = pure tt
unref_nodes (p ∷ nodes) = do player_unref p; unref_nodes nodes

unfoldable pub preg_fini : M (Unit {0})
unfolding unref_nodes
preg_fini = do
  nodes ← read (λ w. w.player_registry.nodes)
  unref_nodes nodes
  write λ w. record w { player_registry = record { nodes = []; length = 0 } }
