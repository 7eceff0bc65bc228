-- ===== src/Client/Ids/Lowest.antt =====
-- src/client.c: the entry of the array that is the lowest free one, and the array once it is taken.
use jeux_game_server.Prelude.{
  ℕ, zero, suc, ◌+◌, ◌-◌, ◌*◌, ◌/◌, ◌≤◌, ◌<◌, ◌≡◌, ◌≢◌, refl, sym, ap, ◌∙◌, Option, none, some,
  List, [], ◌∷◌, ◌++◌, arith, length, get_or-set_ne, set,
}
use native.Mathlib.Decide.{dec_le}
use jeux_game_server.World.{Client}
use jeux_game_server.Client.Object.{ids_from}
use jeux_game_server.Client.Ids.{take_first, grow_ids, allot_id}
use jeux_game_server.Client.Ids.Entries.{Own, taken, entry, IdsValid, taken-le-length}
use jeux_game_server.Client.Ids.Allot.{IsLowest}
use jeux_game_server.Client.Ids.Restoring.{take_first-set, taken_id}

pub entry-append-before :
    (xs ys : List (Option ℕ)) (j : ℕ) → j < length xs → entry (xs ++ ys) j ≡ entry xs j
entry-append-before [] ys j h = elim h [ ]
entry-append-before (x ∷ xs) ys zero h = refl
entry-append-before (x ∷ xs) ys (suc j) h = entry-append-before xs ys j (omega arith)

entry-append-at : (xs ys : List (Option ℕ)) (y : Option ℕ) → entry (xs ++ y ∷ ys) (length xs) ≡ y
entry-append-at [] ys y = refl
entry-append-at (x ∷ xs) ys y = entry-append-at xs ys y

all_taken :
    (ids : List (Option ℕ)) (j : ℕ) → length ids ≤ taken ids → j < length ids → entry ids j ≡ none
all_taken [] j h l = elim l [ ]
all_taken (none ∷ ids) zero h l = refl
all_taken (none ∷ ids) (suc j) h l = all_taken ids j (omega arith) (omega arith)
all_taken (some n ∷ ids) j h l = absurd (omega (arith, taken-le-length ids))

-- The entry that the search takes.
take_first-entry :
    (i : ℕ) (ids : List (Option ℕ)) (n k : ℕ)
    → Own i ids
    → (take_first ids).0 ≡ some n
    → n ≡ i + k
    → entry (take_first ids).1 k ≡ none
unfolding take_first
take_first-entry i [] n k o e s = refl
take_first-entry i (none ∷ ids) n zero o e s = refl
take_first-entry i (none ∷ ids) n (suc k) o e s = take_first-entry (i + 1) ids n k o e (omega arith)
take_first-entry i (some m ∷ ids) n zero o e s = refl
take_first-entry i (some m ∷ ids) n (suc k) o e s = absurd (apart m n o.0 e s)
  where
    apart : (m n : ℕ) → m ≡ i → some m ≡ some n → n ≡ i + suc k → ⊥
    apart m n a b c = ground arith

-- The search, where it gives an ID.
pub allot_id-takes :
    (c : Client) (n : ℕ)
    → (allot_id c).0 ≡ some n
    → (allot_id c).1
      ≡ record c { available_ids = (take_first c.available_ids).1; id_usage = c.id_usage + 1 }
unfolding allot_id
allot_id-takes c n e = rw (taken_id c n e, allot_id) refl

-- An array of IDs where the entry at `n` is taken and the others are those of another array.
abbrev pub TakenAt : ℕ → List (Option ℕ) → List (Option ℕ) → Type 0
TakenAt n ids ids' = (entry ids' n ≡ none) × ((j : ℕ) → n ≢ j → entry ids' j ≡ entry ids j)

pub take_first-TakenAt :
    (ids : List (Option ℕ)) (n : ℕ)
    → Own 0 ids
    → (take_first ids).0 ≡ some n
    → TakenAt n ids (take_first ids).1
take_first-TakenAt ids n o e =
    let (k, s, r) = take_first-set 0 ids n o e in
    (
      take_first-entry 0 ids n n o e (omega arith),
      λ j d.
          sym (get_or-set_ne (take_first ids).1 n j (some n) none d)
          ∙ ap (λ l. entry l j)
              (ap (λ i. set (take_first ids).1 i (some n)) (omega (arith, s)) ∙ r),
    )

not_both : {n : ℕ} {o : Option ℕ} → o ≡ some n → o ≡ none → ⊥
not_both a b = cc

-- After entries that are all taken, the lowest free one is the next.
append-lowest :
    (xs ys : List (Option ℕ)) (y n : ℕ)
    → ((j : ℕ) → j < length xs → entry xs j ≡ none)
    → IsLowest (xs ++ some y ∷ ys) n
    → n ≡ length xs
append-lowest xs ys y n h (found, below) = elim (dec_le (length xs) n) [
  | no l ↦
      absurd
        (not_both found (entry-append-before xs (some y ∷ ys) n (omega arith) ∙ h n (omega arith)))
  | yes l ↦ elim (dec_le n (length xs)) [
    | no k ↦ absurd (not_both (entry-append-at xs ys (some y)) (below (length xs) (omega arith)))
    | yes k ↦ omega arith
  ]
]

first_of-ids_from : (i m : ℕ) → 0 < m → (ys : List (Option ℕ)) × (ids_from i m ≡ some i ∷ ys)
unfolding ids_from
first_of-ids_from i zero h = elim h [ ]
first_of-ids_from i (suc m) h = (ids_from (i + 1) m, refl)

-- In a doubled array whose first half is taken, the lowest free entry is the first of the second
-- half.
pub grown-lowest :
    (c : Client) (n : ℕ)
    → IdsValid c
    → c.current_id_size ≤ c.id_usage
    → IsLowest (grow_ids c).available_ids n
    → n ≡ c.current_id_size
unfolding grow_ids
grown-lowest c n v f h =
    let size = c.current_id_size * 2 in
    let (ys, e) = first_of-ids_from (size / 2) (size - size / 2) (omega (arith, v.room)) in
    append-lowest c.available_ids ys (size / 2) n
      (λ j l. all_taken c.available_ids j (omega (arith, v.size, v.usage)) l) (rw e at h)
    ∙ v.size
