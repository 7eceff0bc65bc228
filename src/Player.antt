-- ===== src/Player.antt =====
-- src/player.c: players, their reference counts and their ratings.
use jeux_game_server.Prelude.{ℕ, zero, suc, ◌+◌, ◌||◌, Option, none, some, ◌==◌, if◌then◌else◌}
use jeux_game_server.Prelude.Int.{ℤ, pos, ◌+ℤ◌, ◌-ℤ◌, ltb_ℤ}
use jeux_game_server.Game.Text.{Text}
use jeux_game_server.World.{
  Ptr, FloatUnit, M, pure, ◌>>=◌, ◌>>◌, read, fail, load_player, store_player, calloc,
}

-- PLAYER_INITIAL_RATING.
abbrev pub player_initial_rating : ℤ
player_initial_rating = pos 1500

unfoldable pub player_ref : Ptr → M Ptr
player_ref p = do
  x ← load_player p
  store_player p (some (record x { ref_count = x.ref_count + 1 }))
  pure p

-- A count of zero belongs to an object that is freed, so that reaching below it is a fault.
abbrev pub drop_count : ℕ → M ℕ
drop_count zero = fail
drop_count (suc n) = pure n

unfoldable pub player_unref : Ptr → M (Unit {0})
player_unref p = do
  x ← load_player p
  left ← drop_count x.ref_count
  store_player p (if left == 0 then none else some (record x { ref_count = left }))

unfoldable pub player_create : Text → M (Option Ptr)
player_create name = do
  p ← calloc
  elim p [
    | none ↦ pure none
    | some p ↦ do
      store_player p (some (record { name = name; ref_count = 0; rating = player_initial_rating }))
      q ← player_ref p
      pure (some q)
  ]

unfoldable pub player_get_name : Ptr → M Text
player_get_name p = do x ← load_player p; pure x.name

unfoldable pub player_get_rating : Ptr → M ℤ
player_get_rating p = do x ← load_player p; pure x.rating

-- The score of the first player: 0.5 for a draw, 1 for a win, 0 for a loss.
pub score : FloatUnit → ℤ → ℕ
score f (pos zero) = f.half
score f (pos (suc zero)) = f.of_int (pos 1)
score f _ = f.of_int (pos 0)

-- The expected score E1 and the new rating RP1 of the first player.
pub expected_score : FloatUnit → ℤ → ℤ → ℕ
expected_score f r1 r2 = f.div (f.of_int (pos 1)) (
    f.add (f.of_int (pos 1))
      (f.pow (f.of_int (pos 10)) (f.div (f.of_int (r2 -ℤ r1)) (f.of_int (pos 400)))))

pub new_rating : FloatUnit → ℤ → ℤ → ℤ → ℕ
new_rating f r1 r2 result =
    f.add (f.of_int r1)
      (f.mul (f.of_int (pos 32)) (f.sub (score f result) (expected_score f r1 r2)))

-- The two ratings that are stored, each cut to an int.
pub post_ratings : FloatUnit → ℤ → ℤ → ℤ → ℤ × ℤ
post_ratings f r1 r2 result =
    let rp1 = new_rating f r1 r2 result in
    (f.to_int rp1, f.to_int (f.sub (f.of_int (r1 +ℤ r2)) rp1))

-- The branches after the NULL tests.
post_distinct : Ptr → Ptr → ℤ → M (Unit {0})
post_distinct p1 p2 result =
    if p1 == p2
    then pure tt
    else if ltb_ℤ result (pos 0) || ltb_ℤ (pos 2) result
    then pure tt
    else do
      x1 ← load_player p1
      x2 ← load_player p2
      f ← read (λ w. w.float)
      let ratings = post_ratings f x1.rating x2.rating result
      store_player p1 (some (record x1 { rating = ratings.0 }))
      store_player p2 (some (record x2 { rating = ratings.1 }))

unfoldable pub player_post_result : Option Ptr → Option Ptr → ℤ → M (Unit {0})
unfolding post_distinct
player_post_result (some p1) (some p2) result = post_distinct p1 p2 result
player_post_result _ _ result = pure tt
