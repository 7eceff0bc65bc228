-- ===== src/Game/Text/RoundTrip.antt =====
-- src/game.c: the text of a game and of a move.
use jeux_game_server.Prelude.{
  ℕ, zero, suc, ◌+◌, ◌*◌, ◌/◌, ◌%◌, ◌<◌, ◌≡◌, refl, ◌↔◌, some, [], ◌∷◌, sym, ◌∙◌, ap, arith, length,
  get_or, if◌then◌else◌,
}
use jeux_game_server.Prelude.Int.{ℤ, pos, negsuc, ◌-ℤ◌}
use jeux_game_server.Game.{Role, first_player_role, role_eq, Game, GameMove, cell}
use jeux_game_server.Game.Text.{
  Text, mark, game_unparse_state, game_parse_move, game_unparse_move, atoi, move_in_range,
}

-- Where the text shows a cell of the board.
abbrev pub position : ℕ → ℕ
position i = 12 * (i / 3) + 2 * (i % 3)

-- The text of a state is 40 bytes long, so that it and its NUL fit the buffer of 50.
pub length-game_unparse_state : (g : Game) → length (game_unparse_state g) ≡ 40
unfolding game_unparse_state
length-game_unparse_state g = refl

cell_shown :
    (g : Game) (i : ℕ) → i < 9 → get_or (game_unparse_state g) (position i) 0 ≡ mark (cell g.rows i)
unfolding game_unparse_state
cell_shown g zero h = refl
cell_shown g (suc zero) h = refl
cell_shown g (suc (suc zero)) h = refl
cell_shown g (suc (suc (suc zero))) h = refl
cell_shown g (suc (suc (suc (suc zero)))) h = refl
cell_shown g (suc (suc (suc (suc (suc zero))))) h = refl
cell_shown g (suc (suc (suc (suc (suc (suc zero)))))) h = refl
cell_shown g (suc (suc (suc (suc (suc (suc (suc zero))))))) h = refl
cell_shown g (suc (suc (suc (suc (suc (suc (suc (suc zero)))))))) h = refl
cell_shown g (suc (suc (suc (suc (suc (suc (suc (suc (suc n))))))))) h = absurd (omega arith)

mark-injective : (r s : Role) → mark r ≡ mark s → r ≡ s
unfolding mark
mark-injective r s e = ground arith

abbrev turn_mark : Role → ℕ
turn_mark r = if role_eq r first_player_role then b'X' else b'O'

turn_byte : (g : Game) → get_or (game_unparse_state g) 30 0 ≡ turn_mark g.current_player
unfolding game_unparse_state
turn_byte g = refl

turn_shown :
    (p q : Role) → turn_mark p ≡ turn_mark q → (p ≡ first_player_role) ↔ (q ≡ first_player_role)
turn_shown p q e = ground arith

-- Two games with the same text have the same board, and the same player on the move in the sense of
-- the text: the first player or not.
pub game_unparse_state-injective :
    (g h : Game)
    → game_unparse_state g ≡ game_unparse_state h
    → ((i : ℕ) → i < 9 → cell g.rows i ≡ cell h.rows i)
      × ((g.current_player ≡ first_player_role) ↔ (h.current_player ≡ first_player_role))
game_unparse_state-injective g h e = (
  λ i l.
      mark-injective _ _
        (sym (cell_shown g i l) ∙ ap (λ t. get_or t (position i) 0) e ∙ cell_shown h i l),
  turn_shown g.current_player h.current_player
      (sym (turn_byte g) ∙ ap (λ t. get_or t 30 0) e ∙ turn_byte h),
)

move_in_range-some :
    (z : ℤ) (r : Role) (m : GameMove) → move_in_range z r ≡ some m → (m.move < 9) × (m.role ≡ r)
unfolding move_in_range
move_in_range-some (pos n) r m e = ground arith
move_in_range-some (negsuc n) r m e = ground arith

move_in_range-pos :
    (n : ℕ) (r : Role) → n < 9 → move_in_range (pos n) r ≡ some (record { move = n; role = r })
unfolding move_in_range
move_in_range-pos n r h = ground arith

atoi_digit : (n : ℕ) → n < 9 → atoi ((n + 1 + b'0') ∷ []) -ℤ pos 1 ≡ pos n
unfolding atoi ◌-ℤ◌
atoi_digit n h = ground arith

-- game_parse_move reads back what game_unparse_move wrote, for every move on the board and every
-- game, under the role that is passed to it.
pub parse-unparse_move :
    (g : Game) (m : GameMove) → m.move < 9 → game_parse_move g m.role (game_unparse_move m) ≡ some m
unfolding game_parse_move game_unparse_move
parse-unparse_move g m h = rw (atoi_digit m.move h) (move_in_range-pos m.move m.role h)

-- Every move that parses is on the board and carries the role that was passed.
pub game_parse_move-in_range :
    (g : Game) (r : Role) (s : Text) (m : GameMove)
    → game_parse_move g r s ≡ some m
    → (m.move < 9) × (m.role ≡ r)
unfolding game_parse_move
game_parse_move-in_range g r s m e = ground (arith, move_in_range-some (atoi s -ℤ pos 1) r m)
