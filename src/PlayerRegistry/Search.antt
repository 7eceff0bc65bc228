-- ===== src/PlayerRegistry/Search.antt =====
-- src/player_registry.c: the walk along the nodes.
use jeux_game_server.Prelude.{
  ◌≡◌, refl, sym, ◌∙◌, ◌≢◌, ◌⊎◌, inl, inr, true, false, Option, none, some, List, [], ◌∷◌, text_eq,
  text_eq→eq, text_eq_self, Bool-cases,
}
use jeux_game_server.Game.Text.{Text}
use jeux_game_server.World.{Ptr, Player, World, Run, ok, load_player}
use jeux_game_server.Player.{player_get_name}
use jeux_game_server.PlayerRegistry.{find_node}

abbrev pub In : Ptr → List Ptr → Type 0
In p [] = ⊥
In p (q ∷ nodes) = (p ≡ q) ⊎ In p nodes

-- How the walk along the nodes ends.
pub data Finding (w : World) (name : Text) (nodes : List Ptr) : Run (Option Ptr) → Type 0 where
  found :
      {p : Ptr} {x : Player}
      → In p nodes
      → w.players p ≡ some x
      → x.name ≡ name
      → Finding w name nodes (ok (some p) w)
  missing :
      ((p : Ptr) (x : Player) → In p nodes → w.players p ≡ some x → x.name ≢ name)
      → Finding w name nodes (ok none w)

same_name :
    (w : World) (q : Ptr) (x y : Player)
    → w.players q ≡ some x
    → w.players q ≡ some y
    → y.name ≡ x.name
same_name w q x y l e = cc

true-ne-false : true ≢ false
true-ne-false e = cc

differs : (s t : Text) → text_eq s t ≡ false → s ≢ t
differs s t f e = true-ne-false (sym (rw e (text_eq_self t)) ∙ f)

Finding-further :
    (w : World) (name : Text) (q : Ptr) (y : Player) (nodes : List Ptr) (r : Run (Option Ptr))
    → w.players q ≡ some y
    → text_eq y.name name ≡ false
    → Finding w name nodes r
    → Finding w name (q ∷ nodes) r
Finding-further w name q y nodes r e n (found i l h) = found (inr i) l h
Finding-further w name q y nodes r e n (missing k) = missing all
  where
    other : (x : Player) → w.players q ≡ some x → x.name ≢ name
    other x l h = differs y.name name n (same_name w q x y l e ∙ h)

    all : (p : Ptr) (x : Player) → In p (q ∷ nodes) → w.players p ≡ some x → x.name ≢ name
    all p x (inl s) l h = other x (rw s at l) h
    all p x (inr i) l h = k p x i l h

pub find_node-Finding :
    (w : World) (name : Text) (nodes : List Ptr)
    → ((p : Ptr) → In p nodes → (x : Player) × (w.players p ≡ some x))
    → Finding w name nodes (find_node nodes name w)
unfolding find_node player_get_name load_player
find_node-Finding w name [] live = missing λ p x i l h. i
find_node-Finding w name (q ∷ nodes) live =
    let (y, e) = live q (inl refl) in
    elim (Bool-cases (text_eq y.name name)) [
      | inl t ↦ rw (e, t) (found (inl refl) e (text_eq→eq y.name name t))
      | inr f ↦
          rw (e, f)
            (Finding-further w name q y nodes _ e f
              (find_node-Finding w name nodes λ p i. live p (inr i)))
    ]
