-- ===== src/Game/Turns.antt =====
-- src/game.c: the invariant of a game, and the number of moves that it can have.
use jeux_game_server.Prelude.{
  ℕ, zero, suc, ◌+◌, ◌≤◌, ◌<◌, ◌≡◌, refl, ◌≢◌, ◌∙◌, sym, ◌⊎◌, inl, inr, Bool, true, Option, none,
  some, List, [], ◌∷◌, arith, set, length, length-set, if◌then◌else◌,
}
use jeux_game_server.Game.{
  Role, null_role, first_player_role, second_player_role, role_eq, Game, GameMove, Status, success,
  failure, cell, game_apply_move, game_resign, game_create, other_player, game_ref,
}
use jeux_game_server.Game.Verdict.{game_apply_move-Status}

-- The number of cells that hold a role.
abbrev pub count : Role → List Role → ℕ
count r [] = 0
count r (x ∷ xs) = if role_eq x r then suc (count r xs) else count r xs

count-set_self :
    (r : Role) (xs : List Role) (i : ℕ)
    → i < length xs
    → cell xs i ≡ null_role
    → r ≢ null_role
    → count r (set xs i r) ≡ count r xs + 1
count-set_self r [] i h e p = elim h [ ]
count-set_self r (x ∷ xs) zero h e p = ground arith
count-set_self r (x ∷ xs) (suc i) h e p = ground (arith, count-set_self r xs i (omega arith) e p)

count-set_ne :
    (q r : Role) (xs : List Role) (i : ℕ)
    → cell xs i ≡ null_role
    → q ≢ null_role
    → q ≢ r
    → count q (set xs i r) ≡ count q xs
count-set_ne q r [] i e p n = refl
count-set_ne q r (x ∷ xs) zero e p n = ground arith
count-set_ne q r (x ∷ xs) (suc i) e p n = ground (arith, count-set_ne q r xs i e p n)

count-set_null :
    (r : Role) (xs : List Role) (i : ℕ)
    → i < length xs
    → cell xs i ≡ null_role
    → r ≢ null_role
    → count null_role (set xs i r) + 1 ≡ count null_role xs
count-set_null r [] i h e p = elim h [ ]
count-set_null r (x ∷ xs) zero h e p = ground arith
count-set_null r (x ∷ xs) (suc i) h e p = ground (arith, count-set_null r xs i (omega arith) e p)

-- The board has nine cells, the players take turns, and only a resigned game is on nobody's move.
pub record IsValid (g : Game) : Type 0 where
  pub size : length g.rows ≡ 9
  pub first_moves :
      g.current_player ≡ first_player_role
      → count first_player_role g.rows ≡ count second_player_role g.rows
  pub second_moves :
      g.current_player ≡ second_player_role
      → count first_player_role g.rows ≡ count second_player_role g.rows + 1
  pub resigned : g.current_player ≡ null_role → (g.is_over ≡ true) × (g.winner ≢ null_role)

pub game_create-IsValid : (c m : Bool) (g : Game) → game_create c m ≡ some g → IsValid g
unfolding game_create game_ref
game_create-IsValid c m g e = ground arith

played-IsValid :
    (g g' : Game) (r : Role) (i : ℕ)
    → i < length g.rows
    → IsValid g
    → g.current_player ≡ r
    → r ≢ null_role
    → cell g.rows i ≡ null_role
    → g'.rows ≡ set g.rows i r
    → g'.current_player ≡ other_player g.current_player
    → IsValid g'
played-IsValid g g' null_role i h v turn p free rows player = absurd (p refl)
played-IsValid g g' first_player_role i h v turn p free rows player = ground (
  arith,
  length-set g.rows i first_player_role,
  count-set_self first_player_role g.rows i h free p,
  count-set_ne second_player_role first_player_role g.rows i free,
)
played-IsValid g g' second_player_role i h v turn p free rows player = ground (
  arith,
  length-set g.rows i second_player_role,
  count-set_self second_player_role g.rows i h free p,
  count-set_ne first_player_role second_player_role g.rows i free,
)

-- A move of a player to a cell of the board, whether it succeeds or fails, keeps a game valid: nine
-- cells, as many marks of the first player as of the second when the first is on the move, one more
-- when the second is, and nobody on the move only when the game was resigned.
pub game_apply_move-IsValid :
    (g : Game) (m : GameMove)
    → m.move < 9
    → m.role ≢ null_role
    → IsValid g
    → IsValid (game_apply_move g m).0
game_apply_move-IsValid g m h p v = elim (game_apply_move-Status g m) [
  | inl (_, turn, free, rows, player, _) ↦
      played-IsValid g _ m.role m.move (omega (arith, v.size)) v turn p free rows player
  | inr (_, _, same) ↦ rw same v
]

pub game_resign-IsValid : (g : Game) (r : Role) → IsValid g → IsValid (game_resign g r).0
unfolding game_resign
game_resign-IsValid g r v = ground arith

-- A list of moves, each of which must succeed.
unfoldable pub play : Game → List GameMove → Option Game
play g [] = some g
play g (m ∷ ms) =
    let rest = play (game_apply_move g m).0 ms in
    elim (game_apply_move g m).1 [ success ↦ rest | failure ↦ none ]

abbrev pub IsPlayerMove : GameMove → Type 0
IsPlayerMove m = (m.move < 9) × (m.role ≢ null_role)

abbrev pub AllPlayerMoves : List GameMove → Type 0
AllPlayerMoves [] = Unit {0}
AllPlayerMoves (m ∷ ms) = IsPlayerMove m × AllPlayerMoves ms

Status-cases : (s : Status) → (s ≡ success) ⊎ (s ≡ failure)
Status-cases success = inl refl
Status-cases failure = inr refl

success-ne-failure : success ≢ failure
success-ne-failure e = cc

none-ne-some : {A : Type 0} {a : A} → none ≢ some a
none-ne-some e = cc

-- A successful move fills one of the empty cells.
game_apply_move-count :
    (g : Game) (m : GameMove)
    → IsPlayerMove m
    → length g.rows ≡ 9
    → (game_apply_move g m).1 ≡ success
    → (count null_role (game_apply_move g m).0.rows + 1 ≡ count null_role g.rows)
      × (length (game_apply_move g m).0.rows ≡ 9)
game_apply_move-count g m p n ok = elim (game_apply_move-Status g m) [
  | inl (_, turn, free, rows, player, _) ↦ rw rows (
    count-set_null m.role g.rows m.move (omega arith) free p.1,
    length-set g.rows m.move m.role ∙ n,
  )
  | inr (failed, _, same) ↦ absurd (success-ne-failure (sym ok ∙ failed))
]

-- The moves of a game that succeed are as many as the cells that they fill.
pub play-count :
    (g g' : Game) (ms : List GameMove)
    → length g.rows ≡ 9
    → AllPlayerMoves ms
    → play g ms ≡ some g'
    → length ms + count null_role g'.rows ≡ count null_role g.rows
unfolding play
play-count g g' [] n p e = ground arith
play-count g g' (m ∷ ms) n p e = elim (Status-cases (game_apply_move g m).1) [
  | inl ok ↦
      let (less, size) = game_apply_move-count g m p.0 n ok in
      omega (arith, play-count (game_apply_move g m).0 g' ms size p.1 (rw (ok, play) at e), less)
  | inr failed ↦ absurd (none-ne-some (rw (failed, play) at e))
]

-- From a new game, a list of players' moves to cells of the board that all succeed has at most nine
-- moves.
pub play-le-nine :
    (g g' : Game) (ms : List GameMove)
    → game_create true true ≡ some g
    → AllPlayerMoves ms
    → play g ms ≡ some g'
    → length ms ≤ 9
unfolding game_create game_ref
play-le-nine g g' ms e p q = omega (arith, play-count g g' ms (ground arith) p q, empty)
  where
    empty : count null_role g.rows ≡ 9
    empty = ground arith
