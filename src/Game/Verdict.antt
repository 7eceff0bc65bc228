-- ===== src/Game/Verdict.antt =====
-- src/game.c: what game_is_over decides, and what game_apply_move and game_resign do to a game.
use jeux_game_server.Prelude.{
  ◌≡◌, ◌≢◌, ◌⊎◌, inl, inr, Bool, true, false, List, arith, Bool-cases, Option-cases, ◌==◌, ==_iff,
  set,
}
use native.Mathlib.Nat.{zero-add}
use jeux_game_server.Game.{
  Role, null_role, Game, GameMove, success, failure, cell, count_empty, line_winner, game_is_over,
  game_apply_move, other_player,
}
use jeux_game_server.Game.Lines.{
  HasLine, IsFull, line_winner-some, line_winner-none, count_empty-zero, count_empty-full,
}

-- What a call of game_is_over may find.
pub data Verdict (g : Game) : Game × Bool → Type 0 where
  won :
      {r : Role}
      → r ≢ null_role
      → HasLine g.rows r
      → Verdict g (record g { winner = r; is_over = true }, true)
  drawn :
      ((r : Role) → r ≢ null_role → ¬ HasLine g.rows r)
      → IsFull g.rows
      → Verdict g (record g { winner = null_role; is_over = true }, true)
  open_game :
      ((r : Role) → r ≢ null_role → ¬ HasLine g.rows r) → ¬ IsFull g.rows → Verdict g (g, g.is_over)

space-not-full : (board : List Role) → IsFull board → (count_empty 9 0 board 0 == 0) ≢ false
space-not-full board full =
    rw (count_empty-full 9 0 0 board λ j h. rw (zero-add j) (full j h)) (λ e. cc)

-- Whatever the position, game_is_over reports a win exactly for a player with three in a line, a
-- draw exactly for a full board without one, and changes nothing in every other position.
pub game_is_over-Verdict : (g : Game) → Verdict g (game_is_over g)
unfolding game_is_over
game_is_over-Verdict g = elim (Option-cases (line_winner g.rows)) [
  | inr (r, e) ↦ let (p, h) = line_winner-some g.rows r e in rw (e, game_is_over) (won p h)
  | inl e ↦
      rw (e, game_is_over)
        (elim (Bool-cases (count_empty 9 0 g.rows 0 == 0)) [
          | inl full ↦ rw full (
              drawn (λ r p. line_winner-none g.rows r p e)
                (λ j h. rw (← zero-add j) (count_empty-zero 9 0 g.rows ((==_iff _ 0).0 full) j h)))
          | inr space ↦ rw space (
              open_game (λ r p. line_winner-none g.rows r p e)
                λ full. space-not-full g.rows full space)
        ])
]

pub game_is_over-keeps :
    (g : Game)
    → ((game_is_over g).0.rows ≡ g.rows)
      × ((game_is_over g).0.current_player ≡ g.current_player)
      × ((game_is_over g).0.ref_count ≡ g.ref_count)
unfolding game_is_over
game_is_over-keeps g = ground arith

pub game_apply_move-Status :
    (g : Game) (m : GameMove)
    → let (g', s) = game_apply_move g m in
      ((s ≡ success)
        × (g.current_player ≡ m.role)
        × (cell g.rows m.move ≡ null_role)
        × (g'.rows ≡ set g.rows m.move m.role)
        × (g'.current_player ≡ other_player g.current_player)
        × (g'.ref_count ≡ g.ref_count))
      ⊎ ((s ≡ failure)
          × ((g.current_player ≢ m.role) ⊎ (cell g.rows m.move ≢ null_role))
          × (g' ≡ g))
unfolding game_apply_move
game_apply_move-Status g m = ground (
  arith,
  game_is_over-keeps (record g {
    rows = set g.rows m.move m.role;
    current_player = other_player g.current_player;
  }),
)
