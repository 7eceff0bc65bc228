-- ===== src/Game/Lines.antt =====
-- src/game.c: game_is_over against the eight lines of the board.
use jeux_game_server.Prelude.{
  ℕ, zero, suc, ◌+◌, ◌≤◌, ◌<◌, ◌≡◌, refl, ◌≢◌, ◌⊎◌, inl, inr, false, Option, none, some, List, [],
  ◌∷◌, arith, Bool-cases, Option-cases,
}
use native.Mathlib.Nat.{add-zero}
use jeux_game_server.Game.{
  Role, null_role, first_player_role, second_player_role, role_eq, cell, check_line, or_else,
  check_rows, check_columns, check_diagonals, count_empty, line_winner,
}

abbrev pub Line : Type 0
Line = ℕ × ℕ × ℕ

-- The rows, the columns and the diagonals.
abbrev pub lines : List Line
lines =
    (0, 1, 2)
    ∷ (3, 4, 5)
    ∷ (6, 7, 8)
    ∷ (0, 3, 6)
    ∷ (1, 4, 7)
    ∷ (2, 5, 8)
    ∷ (0, 4, 8)
    ∷ (2, 4, 6)
    ∷ []

abbrev pub Owns : List Role → Role → Line → Type 0
Owns board r (i, j, k) = (cell board i ≡ r) × (cell board j ≡ r) × (cell board k ≡ r)

abbrev pub OwnsOneOf : List Role → Role → List Line → Type 0
OwnsOneOf board r [] = ⊥
OwnsOneOf board r (l ∷ ls) = Owns board r l ⊎ OwnsOneOf board r ls

-- A player has three in a line.
abbrev pub HasLine : List Role → Role → Type 0
HasLine board r = OwnsOneOf board r lines

first_line : List Role → List Line → Option Role
first_line board [] = none
first_line board ((i, j, k) ∷ ls) = or_else (check_line board i j k) (first_line board ls)

or_else_assoc {ℓ} :
    {A : Type ℓ} (a b c : Option A) → or_else (or_else a b) c ≡ or_else a (or_else b c)
or_else_assoc (some a) b c = refl
or_else_assoc none b c = refl

or_else-none {ℓ} : {A : Type ℓ} (a : Option A) → or_else a none ≡ a
or_else-none (some a) = refl
or_else-none none = refl

line_winner-first_line : (board : List Role) → line_winner board ≡ first_line board lines
unfolding line_winner check_rows check_columns check_diagonals first_line
line_winner-first_line board = simp (or_else_assoc, or_else-none)

-- A line that is found belongs to the player that is reported.
check_line-some :
    (board : List Role) (i j k : ℕ) (r : Role)
    → check_line board i j k ≡ some r
    → (r ≢ null_role) × Owns board r (i, j, k)
unfolding check_line
check_line-some board i j k r e = ground arith

check_line-none :
    (board : List Role) (i j k : ℕ) (r : Role)
    → r ≢ null_role
    → check_line board i j k ≡ none
    → ¬ Owns board r (i, j, k)
unfolding check_line
check_line-none board i j k r p e o = ground arith

first_line-some :
    (board : List Role) (ls : List Line) (r : Role)
    → first_line board ls ≡ some r
    → (r ≢ null_role) × OwnsOneOf board r ls
unfolding first_line
first_line-some board [] r e = cc
first_line-some board ((i, j, k) ∷ ls) r e = elim (Option-cases (check_line board i j k)) [
  | inl missing ↦ let (p, o) = first_line-some board ls r (rw (missing, or_else) at e) in (p, inr o)
  | inr (s, found) ↦ let (p, o) = check_line-some board i j k r (ground arith) in (p, inl o)
]

first_line-none :
    (board : List Role) (ls : List Line) (r : Role)
    → r ≢ null_role
    → first_line board ls ≡ none
    → ¬ OwnsOneOf board r ls
unfolding first_line
first_line-none board [] r p e o = o
first_line-none board ((i, j, k) ∷ ls) r p e (inl o) =
    check_line-none board i j k r p (ground arith) o
first_line-none board ((i, j, k) ∷ ls) r p e (inr o) = first_line-none board ls r p (ground arith) o

pub line_winner-some :
    (board : List Role) (r : Role) → line_winner board ≡ some r → (r ≢ null_role) × HasLine board r
line_winner-some board r e = first_line-some board lines r (rw line_winner-first_line at e)

pub line_winner-none :
    (board : List Role) (r : Role) → r ≢ null_role → line_winner board ≡ none → ¬ HasLine board r
line_winner-none board r p e = first_line-none board lines r p (rw line_winner-first_line at e)

abbrev pub IsFull : List Role → Type 0
IsFull board = (i : ℕ) → i < 9 → cell board i ≢ null_role

add-suc-left : (i j : ℕ) → i + suc j ≡ i + 1 + j
add-suc-left i j = omega arith

count_empty-ge : (k i n : ℕ) (board : List Role) → n ≤ count_empty k i board n
unfolding count_empty
count_empty-ge zero i n board = omega arith
count_empty-ge (suc k) i n board =
    ground (arith, count_empty-ge k (i + 1) n board, count_empty-ge k (i + 1) (n + 1) board)

pub count_empty-zero :
    (k i : ℕ) (board : List Role)
    → count_empty k i board 0 ≡ 0
    → (j : ℕ) → j < k
    → cell board (i + j) ≢ null_role
unfolding count_empty
count_empty-zero zero i board e j h = elim h [ ]
count_empty-zero (suc k) i board e zero h =
    rw (add-zero i) (λ q. ground (arith, count_empty-ge k (i + 1) 1 board))
count_empty-zero (suc k) i board e (suc j) h =
    elim (Bool-cases (role_eq (cell board i) null_role)) [
      | inl empty ↦ absurd (ground (arith, count_empty-ge k (i + 1) 1 board))
      | inr taken ↦
          rw (add-suc-left i j) (count_empty-zero k (i + 1) board (rw taken at e) j (omega arith))
    ]

role_eq-ne : (r : Role) → r ≢ null_role → role_eq r null_role ≡ false
role_eq-ne null_role p = absurd (p refl)
role_eq-ne first_player_role p = refl
role_eq-ne second_player_role p = refl

pub count_empty-full :
    (k i n : ℕ) (board : List Role)
    → ((j : ℕ) → j < k → cell board (i + j) ≢ null_role)
    → count_empty k i board n ≡ n
unfolding count_empty
count_empty-full zero i n board h = refl
count_empty-full (suc k) i n board h = rw (
  taken,
  count_empty-full k (i + 1) n board λ j l. rw (← add-suc-left i j) (h (suc j) (omega arith)),
)
  where
    head : cell board i ≢ null_role
    head = rw add-zero at (h 0 (omega arith))

    taken : role_eq (cell board i) null_role ≡ false
    taken = role_eq-ne _ head
