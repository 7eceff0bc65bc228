-- ===== src/Game/Tests.antt =====
-- src/game.c: runs of the game, and the theorems about it at concrete games.
use jeux_game_server.Prelude.{
  ◌≡◌, refl, ◌↔◌, ℕ, ◌≤◌, ◌<◌, true, false, some, List, [], ◌∷◌, replicate, length, arith,
}
use jeux_game_server.Prelude.Int.{◌-ℤ◌}
use jeux_game_server.Game.{
  null_role, first_player_role, second_player_role, Game, GameMove, success, cell, check_line,
  check_rows, check_columns, check_diagonals, count_empty, line_winner, game_create, game_ref,
  game_is_over, game_apply_move,
}
use jeux_game_server.Game.Text.{
  game_unparse_state, game_parse_move, game_unparse_move, atoi, atoi_signed, digits_value,
  move_in_range, unparse_row, floor_line, mark,
}
use jeux_game_server.Game.Text.RoundTrip.{
  game_unparse_state-injective, parse-unparse_move, game_parse_move-in_range,
}
use jeux_game_server.Game.Verdict.{Verdict, game_is_over-Verdict}
use jeux_game_server.Game.Turns.{
  IsValid, game_create-IsValid, game_apply_move-IsValid, play, play-le-nine, AllPlayerMoves,
}

abbrev first_game : Game
first_game = record {
  rows = replicate 9 null_role;
  ref_count = 1;
  is_over = false;
  current_player = first_player_role;
  winner = null_role;
}

abbrev x_at : ℕ → GameMove
x_at n = record { move = n; role = first_player_role }

abbrev o_at : ℕ → GameMove
o_at n = record { move = n; role = second_player_role }

-- The first player has the top row after five moves.
abbrev top_row : List GameMove
top_row = x_at 0 ∷ o_at 3 ∷ x_at 1 ∷ o_at 4 ∷ x_at 2 ∷ []

abbrev won_game : Game
won_game = record {
  rows =
      first_player_role ∷ first_player_role ∷ first_player_role ∷ second_player_role
      ∷ second_player_role ∷ null_role ∷ null_role ∷ null_role ∷ null_role ∷ [];
  ref_count = 1;
  is_over = true;
  current_player = second_player_role;
  winner = first_player_role;
}

created : game_create true true ≡ some first_game
unfolding game_create game_ref
created = refl

play-top_row : play first_game top_row ≡ some won_game
unfolding play game_apply_move game_is_over line_winner check_rows check_columns check_diagonals
    check_line count_empty
play-top_row = refl

-- After the end a free cell may still be taken.
move_after_end : (game_apply_move won_game (o_at 8)).1 ≡ success
unfolding game_apply_move
move_after_end = refl

parse_any_arrow :
    game_parse_move won_game second_player_role (b'5' ∷ b'<' ∷ b'-' ∷ b'Z' ∷ []) ≡ some (o_at 4)
unfolding game_parse_move atoi atoi_signed digits_value move_in_range ◌-ℤ◌
parse_any_arrow = refl

parse_five : game_parse_move first_game second_player_role (b'5' ∷ []) ≡ some (o_at 4)
unfolding game_parse_move atoi atoi_signed digits_value move_in_range ◌-ℤ◌
parse_five = refl

first_game-IsValid : IsValid first_game
first_game-IsValid = game_create-IsValid true true first_game created

game_is_over-Verdict_example : Verdict won_game (game_is_over won_game)
game_is_over-Verdict_example = game_is_over-Verdict won_game

game_apply_move-IsValid_example : IsValid (game_apply_move first_game (x_at 4)).0
game_apply_move-IsValid_example =
    game_apply_move-IsValid first_game (x_at 4) (omega arith) (λ e. cc) first_game-IsValid

top_row-AllPlayerMoves : AllPlayerMoves top_row
top_row-AllPlayerMoves = (
  (omega arith, λ e. cc),
  (
    (omega arith, λ e. cc),
    ((omega arith, λ e. cc), ((omega arith, λ e. cc), ((omega arith, λ e. cc), tt))),
  ),
)

play-le-nine_example : length top_row ≤ 9
play-le-nine_example =
    play-le-nine first_game won_game top_row created top_row-AllPlayerMoves play-top_row

-- The text leaves the winner and the end of a game out.
abbrev unmarked : Game
unmarked = record won_game { is_over = false; winner = null_role }

same_text : game_unparse_state won_game ≡ game_unparse_state unmarked
unfolding game_unparse_state unparse_row floor_line mark
same_text = refl

game_unparse_state-injective_example :
    ((i : ℕ) → i < 9 → cell won_game.rows i ≡ cell unmarked.rows i)
    × ((second_player_role ≡ first_player_role) ↔ (second_player_role ≡ first_player_role))
game_unparse_state-injective_example = game_unparse_state-injective won_game unmarked same_text

parse-unparse_move_example :
    game_parse_move won_game second_player_role (game_unparse_move (o_at 8)) ≡ some (o_at 8)
parse-unparse_move_example = parse-unparse_move won_game (o_at 8) (omega arith)

game_parse_move-in_range_example : (4 < 9) × (second_player_role ≡ second_player_role)
game_parse_move-in_range_example =
    game_parse_move-in_range first_game second_player_role (b'5' ∷ []) (o_at 4) parse_five
