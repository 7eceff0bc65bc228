-- ===== src/ClientRegistry/Membership/Entries.antt =====
-- src/client_registry.c: the array of clients as a list.
use jeux_game_server.Prelude.{
  ℕ, zero, suc, ◌+◌, ◌-◌, ◌≤◌, ◌<◌, ◌≡◌, refl, ap, ◌∙◌, ◌⊎◌, inl, inr, Bool, true, false, Option,
  none, some, List, [], ◌∷◌, ◌++◌, arith, length, length-set, get_or, set, take, if◌then◌else◌,
  Option-cases,
}
use native.Mathlib.Numerals.{add-one}
use native.Mathlib.Nat.{zero-add}
use mathlib.Core.Option
use jeux_game_server.World.{Ptr, ClientRegistry}
use jeux_game_server.ClientRegistry.{registered}
use jeux_game_server.ClientRegistry.Membership.{
  add_entry, is_entry, find_entry, shift, remove_entry,
}

abbrev pub Entries : Type 0
Entries = List (Option Ptr)

-- The list without its entry at `i`.
abbrev pub remove_at : ℕ → Entries → Entries
remove_at i [] = []
remove_at zero (x ∷ xs) = xs
remove_at (suc i) (x ∷ xs) = x ∷ remove_at i xs

-- The list without the first entry that is the client.
abbrev pub erase : Ptr → Entries → Entries
erase p [] = []
erase p (x ∷ xs) = if is_entry x p then xs else x ∷ erase p xs

abbrev pub contains : Ptr → Entries → Bool
contains p [] = false
contains p (x ∷ xs) = if is_entry x p then true else contains p xs

shift-cons : (k j : ℕ) (x : Option Ptr) (xs : Entries) → shift k (suc j) (x ∷ xs) ≡ x ∷ shift k j xs
unfolding shift
shift-cons zero j x xs = refl
shift-cons (suc k) j x xs =
    rw (add-one (suc j), add-one j) (shift-cons k (suc j) x (set xs j (get_or xs (suc j) none)))

take-shift :
    (k : ℕ) (y : Option Ptr) (xs : Entries)
    → k ≤ length xs
    → take k (shift k 0 (y ∷ xs)) ≡ take k xs
unfolding shift
take-shift zero y xs h = refl
take-shift (suc k) y [] h = elim h [ ]
take-shift (suc k) y (z ∷ xs) h =
    rw (shift-cons k 0 z (z ∷ xs)) (ap (λ t. z ∷ t) (take-shift k z xs (omega arith)))

suc-add : (i k : ℕ) → suc i + k ≡ suc (i + k)
suc-add i k = omega arith

shift-remove_at :
    (i k : ℕ) (xs : Entries) (v : Option Ptr)
    → i + suc k ≤ length xs
    → take (i + k) (shift k i (set xs i v)) ≡ remove_at i (take (i + suc k) xs)
shift-remove_at i k [] v h = absurd (omega arith)
shift-remove_at zero k (x ∷ xs) v h =
    rw (zero-add k, zero-add (suc k)) (take-shift k v xs (omega arith))
shift-remove_at (suc i) k (x ∷ xs) v h =
    rw (suc-add i k, suc-add i (suc k), shift-cons k i x (set xs i v))
      (ap (λ t. x ∷ t) (shift-remove_at i k xs v (omega arith)))

-- The place of the first entry that is the client.
index_of : Ptr → Entries → Option ℕ
index_of p [] = none
index_of p (x ∷ xs) = if is_entry x p then some 0 else Option.map suc (index_of p xs)

find_entry-cons :
    (k i : ℕ) (x : Option Ptr) (xs : Entries) (p : Ptr)
    → find_entry k (suc i) (x ∷ xs) p ≡ Option.map suc (find_entry k i xs p)
unfolding find_entry
find_entry-cons zero i x xs p = refl
find_entry-cons (suc k) i x xs p =
    rw (add-one (suc i), add-one i) (ground (arith, find_entry-cons k (suc i) x xs p))

find_entry-index_of :
    (k : ℕ) (xs : Entries) (p : Ptr) → k ≤ length xs → find_entry k 0 xs p ≡ index_of p (take k xs)
unfolding find_entry index_of
find_entry-index_of zero xs p h = refl
find_entry-index_of (suc k) [] p h = elim h [ ]
find_entry-index_of (suc k) (x ∷ xs) p h =
    rw (find_entry-cons k 0 x xs p, find_entry-index_of k xs p (omega arith)) refl

index_of-erase :
    (xs : Entries) (p : Ptr) (i : ℕ)
    → index_of p xs ≡ some i
    → (i < length xs) × (remove_at i xs ≡ erase p xs) × (contains p xs ≡ true)
unfolding index_of
index_of-erase [] p i e = cc
index_of-erase (x ∷ xs) p zero e = ground arith
index_of-erase (x ∷ xs) p (suc i) e = ground (arith, index_of-erase xs p i)

index_of-none : (xs : Entries) (p : Ptr) → index_of p xs ≡ none → contains p xs ≡ false
unfolding index_of
index_of-none [] p e = refl
index_of-none (x ∷ xs) p e = ground (arith, index_of-none xs p)

length-take-le : (n : ℕ) (xs : Entries) → length (take n xs) ≤ n
length-take-le zero xs = omega arith
length-take-le (suc n) [] = omega arith
length-take-le (suc n) (x ∷ xs) = omega (arith, length-take-le n xs)

take-set :
    (n : ℕ) (xs : Entries) (c : Option Ptr)
    → n < length xs
    → take (n + 1) (set xs n c) ≡ take n xs ++ c ∷ []
take-set n [] c h = elim h [ ]
take-set zero (x ∷ xs) c h = refl
take-set (suc n) (x ∷ xs) c h =
    rw (add-one (suc n)) (ap (λ t. x ∷ t) (rw (add-one n) at (take-set n xs c (omega arith))))

-- The registry's entries lie within its array.
abbrev pub InArray : ClientRegistry → Type 0
InArray r = r.length ≤ length r.clients

-- For a registry whose entries lie within its array: the search of creg_unregister finds a client
-- exactly when it is registered, and the shifting then takes out its first entry and keeps the
-- others in order.
pub remove_entry-erase :
    (r : ClientRegistry) (p : Ptr)
    → InArray r
    → ((i : ℕ) × (find_entry r.length 0 r.clients p ≡ some i)
        × (contains p (registered r) ≡ true)
        × (take (r.length - 1) (remove_entry r i) ≡ erase p (registered r)))
      ⊎ ((find_entry r.length 0 r.clients p ≡ none) × (contains p (registered r) ≡ false))
unfolding remove_entry
remove_entry-erase r p h = elim (Option-cases (index_of p (registered r))) [
  | inl e ↦ inr (find_entry-index_of r.length r.clients p h ∙ e, index_of-none (registered r) p e)
  | inr (i, e) ↦
      let (below, same, held) = index_of-erase (registered r) p i e in
      inl (i, find_entry-index_of r.length r.clients p h ∙ e, held, shifted i below ∙ same)
]
  where
    shifted :
        (i : ℕ)
        → i < length (registered r)
        → take (r.length - 1) (shift (r.length - 1 - i) i (set r.clients i none))
          ≡ remove_at i (registered r)
    shifted i below =
        let l : i < r.length = omega (arith, length-take-le r.length r.clients) in
        let front : i + (r.length - 1 - i) ≡ r.length - 1 = omega arith in
        let all : i + suc (r.length - 1 - i) ≡ r.length = omega arith in
        rw (front, all) at (shift-remove_at i (r.length - 1 - i) r.clients none (omega arith))

-- An entry that is added comes after the others.
pub registered-add_entry :
    (r : ClientRegistry) (c : Option Ptr)
    → r.length < length r.clients
    → (registered (add_entry r c) ≡ registered r ++ c ∷ []) × InArray (add_entry r c)
unfolding add_entry
registered-add_entry r c h =
    (take-set r.length r.clients c h, omega (arith, length-set r.clients r.length c))
