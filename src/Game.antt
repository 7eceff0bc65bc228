-- ===== src/Game.antt =====
-- src/game.c: the state of a game of tic-tac-toe, its moves, and their text. A cell of `rows` is an
-- int that holds a GAME_ROLE; the model stores the role itself.
pub mod Text
pub mod Lines
pub mod Verdict
pub mod Turns
pub mod Tests
use jeux_game_server.Prelude.{
  ℕ, zero, suc, ◌+◌, ◌-◌, ◌≡◌, Bool, true, false, not, ◌&&◌, ◌||◌, Option, none, some, List, [],
  ◌∷◌, ◌++◌, ltb, leb, ◌==◌, if◌then◌else◌, get_or, set, replicate, length,
}

-- GAME_ROLE of include/game.h.
pub data Role : Type 0 where
  null_role first_player_role second_player_role : Role

abbrev pub role_eq : Role → Role → Bool
role_eq null_role null_role = true
role_eq first_player_role first_player_role = true
role_eq second_player_role second_player_role = true
role_eq _ _ = false

-- The value of the enumeration's constant.
abbrev pub role_code : Role → ℕ
role_code null_role = 0
role_code first_player_role = 1
role_code second_player_role = 2

pub record Game : Type 0 where
  pub rows : List Role
  pub ref_count : ℕ
  pub is_over : Bool
  pub current_player : Role
  pub winner : Role

pub record GameMove : Type 0 where
  pub move : ℕ
  pub role : Role

-- A function that returns 0 or -1.
pub data Status : Type 0 where
  success failure : Status

unfoldable pub game_ref : Game → Game
game_ref g = record g { ref_count = g.ref_count + 1 }

-- `none` when the count has reached zero and the game is freed.
pub game_unref : Game → Option Game
game_unref g =
    let g' = record g { ref_count = g.ref_count - 1 } in if g'.ref_count == 0 then none else some g'

-- `none` where calloc or pthread_mutex_init fails.
unfoldable pub game_create : (calloc mutex : Bool) → Option Game
unfolding game_ref
game_create calloc mutex =
    if not calloc
    then none
    else if not mutex
    then none
    else some (
        game_ref (record {
          rows = replicate 9 null_role;
          ref_count = 0;
          is_over = false;
          current_player = first_player_role;
          winner = null_role;
        }))

abbrev pub cell : List Role → ℕ → Role
cell board i = get_or board i null_role

-- The test of three cells, and the winner that its body stores.
pub check_line : List Role → ℕ → ℕ → ℕ → Option Role
check_line board i j k =
    if role_eq (cell board i) (cell board j)
      && (role_eq (cell board j) (cell board k) && not (role_eq (cell board i) null_role))
    then some
        (if role_eq (cell board i) first_player_role then first_player_role else second_player_role)
    else none

abbrev pub or_else {ℓ} : {A : Type ℓ} → Option A → Option A → Option A
or_else (some a) b = some a
or_else none b = b

-- for (i = 0; i < 9; i += 3), with the rounds that are left
pub check_rows : ℕ → ℕ → List Role → Option Role
check_rows zero i board = none
check_rows (suc k) i board =
    or_else (check_line board i (i + 1) (i + 2)) (check_rows k (i + 3) board)

-- for (i = 0; i < 3; i++)
pub check_columns : ℕ → ℕ → List Role → Option Role
check_columns zero i board = none
check_columns (suc k) i board =
    or_else (check_line board i (i + 3) (i + 6)) (check_columns k (i + 1) board)

pub check_diagonals : List Role → Option Role
check_diagonals board = or_else (check_line board 0 4 8) (check_line board 2 4 6)

-- for (i = 0; i < 9; i++) if (board[i] == 0) empty_count++;
pub count_empty : ℕ → ℕ → List Role → ℕ → ℕ
count_empty zero i board empty_count = empty_count
count_empty (suc k) i board empty_count =
    count_empty k (i + 1) board
      (if role_eq (cell board i) null_role then empty_count + 1 else empty_count)

pub line_winner : List Role → Option Role
unfolding check_rows check_columns check_diagonals
line_winner board =
    or_else (check_rows 3 0 board) (or_else (check_columns 3 0 board) (check_diagonals board))

-- The new state and the value returned.
pub game_is_over : Game → Game × Bool
unfolding line_winner count_empty
game_is_over g = elim (line_winner g.rows) [
  | some r ↦ (record g { winner = r; is_over = true }, true)
  | none ↦
      if count_empty 9 0 g.rows 0 == 0
      then (record g { winner = null_role; is_over = true }, true)
      else (g, g.is_over)
]

abbrev pub other_player : Role → Role
other_player r = if role_eq r first_player_role then second_player_role else first_player_role

-- The index is in range for every move that `game_parse_move` returns.
pub game_apply_move : Game → GameMove → Game × Status
game_apply_move g m =
    if not (role_eq g.current_player m.role)
    then (g, failure)
    else if not (role_eq (cell g.rows m.move) null_role)
    then (g, failure)
    else (
      (game_is_over (record g {
        rows = set g.rows m.move m.role;
        current_player = other_player g.current_player;
      })).0,
      success,
    )

pub game_resign : Game → Role → Game × Status
game_resign g role = if not (role_eq g.winner null_role) then (g, failure) else (
  record g { current_player = null_role; is_over = true; winner = other_player role },
  success,
)

pub game_get_winner : Game → Role
game_get_winner g = g.winner
