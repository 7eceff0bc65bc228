-- ===== src/Client/Ids/Entries.antt =====
-- src/client.c: the array of IDs, its order, and the search in it.
use jeux_game_server.Prelude.{
  ℕ, zero, suc, ◌+◌, ◌-◌, ◌*◌, ◌/◌, ◌≤◌, ◌<◌, ◌≡◌, refl, ap, ◌∙◌, inl, inr, Option, none, some,
  List, [], ◌∷◌, ◌++◌, arith, length, length-append, get_or, Option-cases,
}
use jeux_game_server.World.{Client}
use jeux_game_server.Client.Object.{ids_from}
use jeux_game_server.Client.Ids.{take_first, grow_ids, allot_id}

-- From index `i` on, an entry is its own index or taken.
abbrev pub Own : ℕ → List (Option ℕ) → Type 0
Own i [] = Unit {0}
Own i (none ∷ ids) = Own (i + 1) ids
Own i (some n ∷ ids) = (n ≡ i) × Own (i + 1) ids

-- The number of entries that are taken.
abbrev pub taken : List (Option ℕ) → ℕ
taken [] = 0
taken (none ∷ ids) = suc (taken ids)
taken (some n ∷ ids) = taken ids

abbrev pub entry : List (Option ℕ) → ℕ → Option ℕ
entry ids i = get_or ids i none

pub taken-le-length : (ids : List (Option ℕ)) → taken ids ≤ length ids
taken-le-length [] = omega arith
taken-le-length (none ∷ ids) = omega (arith, taken-le-length ids)
taken-le-length (some n ∷ ids) = omega (arith, taken-le-length ids)

-- The array of a client: its length, its entries and the number of those in use.
pub record IdsValid (c : Client) : Type 0 where
  pub size : length c.available_ids ≡ c.current_id_size
  pub own : Own 0 c.available_ids
  pub usage : taken c.available_ids ≡ c.id_usage
  pub room : 0 < c.current_id_size

-- What the search finds in an array that begins at `i`: the first entry that is not taken.
abbrev pub Finds : ℕ → List (Option ℕ) → Option ℕ → Type 0
Finds i ids none = taken ids ≡ length ids
Finds i ids (some id) =
    (k : ℕ) × (id ≡ i + k)
    × (k < length ids)
    × (entry ids k ≡ some id)
    × ((j : ℕ) → j < k → entry ids j ≡ none)

Finds-none :
    (i : ℕ) (ids : List (Option ℕ)) (r : Option ℕ) → Finds (i + 1) ids r → Finds i (none ∷ ids) r
Finds-none i ids none f = ap suc f
Finds-none i ids (some id) (k, e, h, found, below) = (suc k, omega arith, omega arith, found, all)
  where
    all : (j : ℕ) → j < suc k → entry (none ∷ ids) j ≡ none
    all zero l = refl
    all (suc j) l = below j (omega arith)

pub take_first-Finds : (i : ℕ) (ids : List (Option ℕ)) → Own i ids → Finds i ids (take_first ids).0
unfolding take_first
take_first-Finds i [] o = refl
take_first-Finds i (none ∷ ids) o = Finds-none i ids _ (take_first-Finds (i + 1) ids o)
take_first-Finds i (some n ∷ ids) (e, o) = (0, omega arith, omega arith, refl, λ j l. elim l [ ])

-- The array after the search.
take_first-Own : (i : ℕ) (ids : List (Option ℕ)) → Own i ids → Own i (take_first ids).1
unfolding take_first
take_first-Own i [] o = o
take_first-Own i (none ∷ ids) o = take_first-Own (i + 1) ids o
take_first-Own i (some n ∷ ids) o = o.1

length-take_first : (ids : List (Option ℕ)) → length (take_first ids).1 ≡ length ids
unfolding take_first
length-take_first [] = refl
length-take_first (none ∷ ids) = ap suc (length-take_first ids)
length-take_first (some n ∷ ids) = refl

taken-take_first :
    (ids : List (Option ℕ)) (id : ℕ)
    → (take_first ids).0 ≡ some id
    → taken (take_first ids).1 ≡ taken ids + 1
unfolding take_first
taken-take_first [] id e = cc
taken-take_first (none ∷ ids) id e = omega (arith, taken-take_first ids id e)
taken-take_first (some n ∷ ids) id e = omega arith

pub taken-ids_from : (i n : ℕ) → taken (ids_from i n) ≡ 0
unfolding ids_from
taken-ids_from i zero = refl
taken-ids_from i (suc n) = taken-ids_from (i + 1) n

pub length-ids_from : (i n : ℕ) → length (ids_from i n) ≡ n
unfolding ids_from
length-ids_from i zero = refl
length-ids_from i (suc n) = ap suc (length-ids_from (i + 1) n)

pub ids_from-Own : (i n : ℕ) → Own i (ids_from i n)
unfolding ids_from
ids_from-Own i zero = tt
ids_from-Own i (suc n) = (refl, ids_from-Own (i + 1) n)

taken-append : (xs ys : List (Option ℕ)) → taken (xs ++ ys) ≡ taken xs + taken ys
taken-append [] ys = omega arith
taken-append (none ∷ xs) ys = omega (arith, taken-append xs ys)
taken-append (some n ∷ xs) ys = taken-append xs ys

append-Own :
    (i k : ℕ) (xs ys : List (Option ℕ)) → i + length xs ≡ k → Own i xs → Own k ys → Own i (xs ++ ys)
append-Own i k [] ys e o p = rw (e' i k e) p
  where
    e' : (i k : ℕ) → i + 0 ≡ k → i ≡ k
    e' i k e = omega arith
append-Own i k (none ∷ xs) ys e o p = append-Own (i + 1) k xs ys (omega arith) o p
append-Own i k (some n ∷ xs) ys e o p = (o.0, append-Own (i + 1) k xs ys (omega arith) o.1 p)

pub grow_ids-IdsValid : (c : Client) → IdsValid c → IdsValid (grow_ids c)
unfolding grow_ids
grow_ids-IdsValid c v = record {
  size = omega (
    arith,
    length-append c.available_ids new,
    length-ids_from (n * 2 / 2) (n * 2 - n * 2 / 2),
    v.size,
  );
  own =
      append-Own 0 (n * 2 / 2) c.available_ids new (omega (arith, v.size)) v.own (ids_from-Own _ _);
  usage = omega (
    arith,
    taken-append c.available_ids new,
    taken-ids_from (n * 2 / 2) (n * 2 - n * 2 / 2),
    v.usage,
  );
  room = omega (arith, v.room);
}
  where
    n : ℕ
    n = c.current_id_size

    new : List (Option ℕ)
    new = ids_from (n * 2 / 2) (n * 2 - n * 2 / 2)

take_first-none : (ids : List (Option ℕ)) → (take_first ids).0 ≡ none → (take_first ids).1 ≡ ids
unfolding take_first
take_first-none [] e = refl
take_first-none (none ∷ ids) e = ap (λ t. none ∷ t) (take_first-none ids e)
take_first-none (some n ∷ ids) e = cc

pub allot_id-IdsValid : (c : Client) → IdsValid c → IdsValid (allot_id c).1
unfolding allot_id
allot_id-IdsValid c v = elim (Option-cases (take_first c.available_ids).0) [
  | inl e ↦
      rw (e, allot_id, take_first-none c.available_ids e)
        (record { size = v.size; own = v.own; usage = v.usage; room = v.room })
  | inr (id, e) ↦
      rw (e, allot_id)
        (record {
          size = length-take_first c.available_ids ∙ v.size;
          own = take_first-Own 0 c.available_ids v.own;
          usage = taken-take_first c.available_ids id e ∙ ap (λ n. n + 1) v.usage;
          room = v.room;
        })
]
