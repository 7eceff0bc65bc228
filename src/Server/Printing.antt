-- ===== src/Server/Printing.antt =====
-- src/server.c: a rating as printf writes it.
use jeux_game_server.Prelude.{
  refl, ◌++◌, take, drop, length, ◌∙◌, ap, Bool-cases, inl, inr, ℕ, zero, suc, ◌+◌, ◌/◌, ◌%◌, ◌<◌,
  ◌≡◌, ◌≤◌, ◌*◌, ◌⊎◌, leb, false, Option, some, none, [], ◌∷◌, arith, ltb, true,
}
use native.Mathlib.Numerals.{add-one}
use jeux_game_server.Prelude.Int.{ℤ, pos, negsuc, ◌-ℤ◌}
use jeux_game_server.Game.Text.{Text, atoi, atoi_signed, digits_value, is_digit}
use jeux_game_server.Server.{print_digits, print_int, line_text, user_line}

digits-print :
    (fuel n : ℕ) (acc : Text)
    → n < fuel
    → digits_value (print_digits fuel n acc) 0 ≡ digits_value acc n
unfolding print_digits digits_value
digits-print zero n acc h = elim h [ ]
digits-print (suc fuel) n acc h = ground (arith, digits-print fuel (n / 10) ((n % 10 + b'0') ∷ acc))

abbrev BeginsWithDigit : Text → Type 0
BeginsWithDigit [] = ⊥
BeginsWithDigit (c ∷ s) = is_digit c ≡ true

print-BeginsWithDigit :
    (fuel n : ℕ) (acc : Text) → n < fuel → BeginsWithDigit (print_digits fuel n acc)
unfolding print_digits
print-BeginsWithDigit zero n acc h = elim h [ ]
print-BeginsWithDigit (suc fuel) n acc h = elim (Bool-cases (ltb n 10)) [
  | inl small ↦ rw small (ground arith)
  | inr large ↦
      rw large (print-BeginsWithDigit fuel (n / 10) ((n % 10 + b'0') ∷ acc) (ground arith))
]

atoi-digits : (s : Text) → BeginsWithDigit s → atoi s ≡ pos (digits_value s 0)
unfolding atoi atoi_signed digits_value
atoi-digits [] d = absurd d
atoi-digits (c ∷ s) d = ground arith

atoi-minus : (s : Text) (n : ℕ) → digits_value s 0 ≡ n + 1 → atoi (b'-' ∷ s) ≡ negsuc n
unfolding atoi atoi_signed ◌-ℤ◌
atoi-minus s n e = ground arith

print-append :
    (fuel n : ℕ) (acc t : Text) → print_digits fuel n acc ++ t ≡ print_digits fuel n (acc ++ t)
unfolding print_digits
print-append zero n acc t = refl
print-append (suc fuel) n acc t = elim (Bool-cases (ltb n 10)) [
  | inl small ↦ rw small refl
  | inr large ↦ rw large (print-append fuel (n / 10) ((n % 10 + b'0') ∷ acc) t)
]

-- The number before a newline.
abbrev newline : Text
newline = 10 ∷ []

digits-line : (fuel n : ℕ) → n < fuel → digits_value (print_digits fuel n [] ++ newline) 0 ≡ n
unfolding digits_value
digits-line fuel n h = rw (print-append fuel n [] newline) (digits-print fuel n newline h)

line-BeginsWithDigit : (fuel n : ℕ) → n < fuel → BeginsWithDigit (print_digits fuel n [] ++ newline)
line-BeginsWithDigit fuel n h =
    rw (print-append fuel n [] newline) (print-BeginsWithDigit fuel n newline h)

rating_line : (z : ℤ) → atoi (print_int z ++ newline) ≡ z
unfolding print_int
rating_line (pos n) =
    atoi-digits (print_digits (n + 1) n [] ++ newline)
      (line-BeginsWithDigit (n + 1) n (omega arith))
    ∙ ap pos (digits-line (n + 1) n (omega arith))
rating_line (negsuc n) =
    atoi-minus (print_digits (n + 2) (n + 1) [] ++ newline) n
      (digits-line (n + 2) (n + 1) (omega arith))

take-name : (name t : Text) → take (length name) (name ++ t) ≡ name
take-name [] t = refl
take-name (c ∷ name) t = ap (λ s. c ∷ s) (take-name name t)

drop-name : (name t : Text) (c : ℕ) → drop (suc (length name)) (name ++ c ∷ t) ≡ t
drop-name [] t c = refl
drop-name (d ∷ name) t c = drop-name name t c

-- The power of ten with `k` zeros.
abbrev limit : ℕ → ℕ
limit zero = 1
limit (suc k) = 10 * limit k

limit_positive : (k : ℕ) → 0 < limit k
limit_positive zero = omega arith
limit_positive (suc k) = omega (arith, limit_positive k)

length-print-le :
    (k fuel n : ℕ) (acc : Text)
    → n < limit (suc k)
    → length (print_digits fuel n acc) ≤ suc k + length acc
unfolding print_digits
length-print-le k zero n acc h = omega arith
length-print-le zero (suc fuel) n acc h = elim (Bool-cases (ltb n 10)) [
  | inl small ↦ rw small (omega arith)
  | inr large ↦ absurd (ground arith)
]
length-print-le (suc k) (suc fuel) n acc h = elim (Bool-cases (ltb n 10)) [
  | inl small ↦ rw small (omega arith)
  | inr large ↦
      rw large
        (omega (arith, length-print-le k fuel (n / 10) ((n % 10 + b'0') ∷ acc) (omega arith)))
]

le-length-print :
    (k fuel n : ℕ) (acc : Text)
    → n < fuel
    → limit k ≤ n
    → suc k + length acc ≤ length (print_digits fuel n acc)
unfolding print_digits
le-length-print k zero n acc f h = elim f [ ]
le-length-print zero (suc fuel) n acc f h = elim (Bool-cases (ltb n 10)) [
  | inl small ↦ rw small (omega arith)
  | inr large ↦ rw large (
      omega (
        arith,
        le-length-print zero fuel (n / 10) ((n % 10 + b'0') ∷ acc) (ground arith) (ground arith),
      ))
]
le-length-print (suc k) (suc fuel) n acc f h = elim (Bool-cases (ltb n 10)) [
  | inl small ↦ absurd (ground (arith, limit_positive k))
  | inr large ↦ rw large (
      omega (
        arith,
        le-length-print k fuel (n / 10) ((n % 10 + b'0') ∷ acc) (ground arith) (omega arith),
      ))
]

-- A rating of at most four characters.
abbrev pub FitsLine : ℤ → Type 0
FitsLine (pos n) = n < 10000
FitsLine (negsuc n) = n + 1 < 1000

print_int-short : (z : ℤ) → FitsLine z → leb (length (print_int z)) 4 ≡ true
unfolding print_int
print_int-short (pos n) h = ground (arith, length-print-le 3 (n + 1) n [] h)
print_int-short (negsuc n) h = ground (arith, length-print-le 2 (n + 2) (n + 1) [] h)

print_int-long : (z : ℤ) → (FitsLine z → ⊥) → leb (length (print_int z)) 4 ≡ false
unfolding print_int
print_int-long (pos n) h =
    ground (arith, le-length-print 4 (n + 1) n [] (omega arith) (omega (arith, h)))
print_int-long (negsuc n) h =
    ground (arith, le-length-print 3 (n + 2) (n + 1) [] (omega arith) (omega (arith, h)))

FitsLine-cases : (z : ℤ) → FitsLine z ⊎ (FitsLine z → ⊥)
FitsLine-cases (pos n) = ground arith
FitsLine-cases (negsuc n) = ground arith

pub user_line-fits : (name : Text) (z : ℤ) → FitsLine z → user_line name z ≡ some (line_text name z)
unfolding user_line
user_line-fits name z h = rw (print_int-short z h) refl

-- A line that tells the name and the rating, or none where the rating does not fit.
abbrev pub Reads : Text → ℤ → Option Text → Type 0
Reads name rating (some line) =
    FitsLine rating
    × (take (length name) line ≡ name)
    × (atoi (drop (length name + 1) line) ≡ rating)
Reads name rating none = FitsLine rating → ⊥

-- A line of the answer to USERS fits its buffer exactly when the rating lies between -999 and
-- 9999, and overflows it otherwise. A line that fits tells both parts: the name stands at its
-- front, and what follows the tab is read back by atoi as the rating.
pub user_line-Reads : (name : Text) (rating : ℤ) → Reads name rating (user_line name rating)
unfolding user_line
user_line-Reads name rating = elim (FitsLine-cases rating) [
  | inl h ↦ rw (print_int-short rating h) (
    h,
    take-name name _,
    rw (add-one (length name))
        (ap atoi (drop-name name (print_int rating ++ newline) 9) ∙ rating_line rating),
  )
  | inr h ↦ rw (print_int-long rating h) h
]
