-- ===== src/Game/Text.antt =====
-- src/game.c: game_unparse_state, game_parse_move and game_unparse_move. A string is the list of
-- its bytes, without the NUL at its end.
pub mod RoundTrip
use jeux_game_server.Prelude.{
  ℕ, zero, suc, ◌+◌, ◌-◌, ◌*◌, Bool, not, ◌&&◌, ◌||◌, Option, none, some, List, [], ◌∷◌, ◌++◌, leb,
  ◌==◌, if◌then◌else◌, get_or, length, replicate,
}
use jeux_game_server.Prelude.Int.{ℤ, pos, negsuc, ltb_ℤ, ◌-ℤ◌}
use jeux_game_server.Game.{
  Role, null_role, first_player_role, second_player_role, role_eq, Game, GameMove, cell,
}

abbrev pub Text : Type 0
Text = List ℕ

unfoldable pub mark : Role → ℕ
mark null_role = b' '
mark first_player_role = b'X'
mark second_player_role = b'O'

-- The loop that writes one row: `last` is the column after which no bar follows.
unfoldable pub unparse_row : ℕ → ℕ → ℕ → List Role → Text
unparse_row zero i last board = []
unparse_row (suc k) i last board =
    mark (cell board i)
    ∷ ((if not (i == last) then b'|' ∷ [] else []) ++ unparse_row k (i + 1) last board)

unfoldable pub floor_line : Text
floor_line = replicate 5 b'-'

abbrev pub newline : Text
newline = 10 ∷ []

abbrev pub to_move : Text
to_move = b' ' ∷ b't' ∷ b'o' ∷ b' ' ∷ b'm' ∷ b'o' ∷ b'v' ∷ b'e' ∷ 10 ∷ []

unfoldable pub game_unparse_state : Game → Text
unfolding unparse_row floor_line mark
game_unparse_state g =
    unparse_row 3 0 2 g.rows
    ++ (newline
        ++ (floor_line
            ++ (newline
                ++ (unparse_row 3 3 5 g.rows
                    ++ (newline
                        ++ (floor_line
                            ++ (newline
                                ++ (unparse_row 3 6 8 g.rows
                                    ++ (newline
                                        ++ ((if role_eq g.current_player first_player_role
                                              then b'X'
                                              else b'O')
                                            ∷ to_move))))))))))

-- atoi of the C library, on a byte string: white space, a sign, and the digits that follow. The number
-- is not cut to an int, which has room for those of a move of at most four characters.
abbrev pub is_digit : ℕ → Bool
is_digit c = leb b'0' c && leb c b'9'

unfoldable pub digits_value : Text → ℕ → ℕ
digits_value [] acc = acc
digits_value (c ∷ s) acc =
    let rest = digits_value s (acc * 10 + (c - b'0')) in if is_digit c then rest else acc

abbrev pub is_space : ℕ → Bool
is_space c = (c == b' ') || (leb 9 c && leb c 13)

unfoldable pub atoi_signed : Text → ℤ
unfolding digits_value
atoi_signed [] = pos 0
atoi_signed (c ∷ s) =
    if c == b'-'
    then pos 0 -ℤ pos (digits_value s 0)
    else if c == b'+'
    then pos (digits_value s 0)
    else pos (digits_value (c ∷ s) 0)

unfoldable pub atoi : Text → ℤ
unfolding atoi_signed
atoi [] = pos 0
atoi (c ∷ s) = let rest = atoi s in if is_space c then rest else atoi_signed (c ∷ s)

-- `move->move = atoi(str) - 1`, and the test of its range.
unfoldable pub move_in_range : ℤ → Role → Option GameMove
move_in_range m role =
    if ltb_ℤ m (pos 0) || ltb_ℤ (pos 8) m
    then none
    else elim m [ pos n ↦ some (record { move = n; role = role }) | negsuc n ↦ none ]

-- The allocation of the result succeeds; where it fails the function returns NULL as well.
unfoldable pub game_parse_move : Game → Role → Text → Option GameMove
game_parse_move g role str =
    if length str == 1
    then move_in_range (atoi str -ℤ pos 1) role
    else if length str == 4
    then (if not (get_or str 1 0 == b'<') || not (get_or str 2 0 == b'-')
        then none
        else if (get_or str 3 0 == b'X') && not (role_eq g.current_player first_player_role)
        then none
        else if (get_or str 3 0 == b'O') && not (role_eq g.current_player second_player_role)
        then none
        else move_in_range (atoi str -ℤ pos 1) role)
    else none

pub game_unparse_move : GameMove → Text
game_unparse_move m = (m.move + 1 + b'0') ∷ []
