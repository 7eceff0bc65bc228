-- ===== src/Client/Ids/Allot.antt =====
-- src/client.c: the IDs that get_available_id gives and purge_id takes back.
use jeux_game_server.Prelude.{
  Bool, ℕ, zero, suc, ◌+◌, ◌-◌, ◌≤◌, ◌<◌, ◌≡◌, refl, ◌∙◌, ◌≢◌, inl, inr, false, Option, none, some,
  List, [], ◌∷◌, arith, length, length-set, get_or-set_self, set, leb, if◌then◌else◌, Bool-cases,
}
use native.Mathlib.Decide.{dec_le}
use jeux_game_server.World.{Client}
use jeux_game_server.Client.Ids.{grow_ids, allot_id, free_id}
use jeux_game_server.Client.Ids.Entries.{
  Own, taken, entry, taken-le-length, IdsValid, Finds, take_first-Finds, grow_ids-IdsValid,
  allot_id-IdsValid,
}

-- The array that get_available_id searches: doubled when every entry is in use.
abbrev pub with_room : Client → Client
with_room c = if leb c.current_id_size c.id_usage then grow_ids c else c

pub with_room-IdsValid : (c : Client) → IdsValid c → IdsValid (with_room c)
with_room-IdsValid c v = elim (Bool-cases (leb c.current_id_size c.id_usage)) [
  | inl full ↦ rw full (grow_ids-IdsValid c v)
  | inr space ↦ rw space v
]

with_room-usage : (c : Client) → IdsValid c → (with_room c).id_usage < (with_room c).current_id_size
unfolding grow_ids
with_room-usage c v = ground (arith, taken-le-length c.available_ids)

-- The lowest entry of an array that is free.
abbrev pub IsLowest : List (Option ℕ) → ℕ → Type 0
IsLowest ids id = (entry ids id ≡ some id) × ((j : ℕ) → j < id → entry ids j ≡ none)

Finds-IsLowest :
    (ids : List (Option ℕ)) (r : Option ℕ)
    → Finds 0 ids r
    → taken ids < length ids
    → (id : ℕ) × (r ≡ some id) × IsLowest ids id
Finds-IsLowest ids none f h = absurd (omega arith)
Finds-IsLowest ids (some id) (k, e, _, found, below) h =
    (id, refl, (rw same at found, λ j l. below j (omega arith)))
  where
    same : k ≡ id
    same = omega arith

-- The search gives an ID, the lowest one that is free, and keeps the array in order.
pub allot_id-IsLowest :
    (c : Client)
    → IdsValid c
    → (id : ℕ) × ((allot_id (with_room c)).0 ≡ some id)
      × IsLowest (with_room c).available_ids id
      × IdsValid (allot_id (with_room c)).1
unfolding allot_id
allot_id-IsLowest c v =
    let w = with_room-IdsValid c v in
    let (id, e, lowest) =
      Finds-IsLowest (with_room c).available_ids _
        (take_first-Finds 0 (with_room c).available_ids w.own)
        (omega (arith, with_room-usage c v, w.usage, w.size)) in
    (id, rw (e, allot_id), lowest, allot_id-IdsValid (with_room c) w)

taken-set :
    (ids : List (Option ℕ)) (k id : ℕ)
    → k < length ids
    → entry ids k ≡ none
    → taken (set ids k (some id)) + 1 ≡ taken ids
taken-set [] k id h e = elim h [ ]
taken-set (none ∷ ids) zero id h e = omega arith
taken-set (some n ∷ ids) zero id h e = cc
taken-set (none ∷ ids) (suc k) id h e = omega (arith, taken-set ids k id (omega arith) e)
taken-set (some n ∷ ids) (suc k) id h e = taken-set ids k id (omega arith) e

set-Own :
    (i k id : ℕ) (ids : List (Option ℕ)) → i + k ≡ id → Own i ids → Own i (set ids k (some id))
set-Own i k id [] e o = o
set-Own i zero id (none ∷ ids) e o = (omega arith, o)
set-Own i zero id (some n ∷ ids) e o = (omega arith, o.1)
set-Own i (suc k) id (none ∷ ids) e o = set-Own (i + 1) k id ids (omega arith) o
set-Own i (suc k) id (some n ∷ ids) e o = (o.0, set-Own (i + 1) k id ids (omega arith) o.1)

pub free_id-IdsValid :
    (c : Client) (id : ℕ)
    → IdsValid c
    → id < c.current_id_size
    → entry c.available_ids id ≡ none
    → IdsValid (free_id c id)
unfolding free_id
free_id-IdsValid c id v h e = record {
  size = length-set c.available_ids id (some id) ∙ v.size;
  own = set-Own 0 id id c.available_ids (omega arith) v.own;
  usage = omega (arith, taken-set c.available_ids id id (omega (arith, v.size)) e, v.usage);
  room = v.room;
}

-- In use below its size, an array is not doubled.
free_id-with_room :
    (c : Client) (id : ℕ)
    → IdsValid c
    → id < c.current_id_size
    → with_room (free_id c id) ≡ free_id c id
unfolding free_id
free_id-with_room c id v h = rw space refl
  where
    space : leb c.current_id_size (c.id_usage - 1) ≡ false
    space = ground (arith, taken-le-length c.available_ids, v.usage, v.size)

not-none : {A : Type 0} {a : A} {o : Option A} → o ≡ some a → o ≢ none
not-none e f = cc

-- For an array of IDs in order: freeing an ID that is in use keeps the array in order, and the next
-- ID that is given is that one or a lower one.
pub free_id-next :
    (c : Client) (id : ℕ)
    → IdsValid c
    → id < c.current_id_size
    → entry c.available_ids id ≡ none
    → IdsValid (free_id c id)
      × ((next : ℕ) × ((allot_id (with_room (free_id c id))).0 ≡ some next) × (next ≤ id))
free_id-next c id v h e =
    let w = free_id-IdsValid c id v h e in
    let (next, given, lowest, _) = allot_id-IsLowest (free_id c id) w in
    (
      w,
      (
        next,
        given,
        elim (dec_le next id) [
          | yes l ↦ l
          | no l ↦
              absurd
                (not-none freed (rw (free_id-with_room c id v h) at (lowest.1 id (omega arith))))
        ],
      ),
    )
  where
    freed : entry (free_id c id).available_ids id ≡ some id
    freed =
        unfold free_id in get_or-set_self c.available_ids id (some id) none (omega (arith, v.size))

-- The search leaves the rest of the client as it is, and does not look at its lock.
pub allot_id-invite_head : (c : Client) → (allot_id (with_room c)).1.invite_head ≡ c.invite_head
unfolding allot_id grow_ids
allot_id-invite_head c = ground arith

pub with_room-lock :
    (c : Client) (b : Bool)
    → (with_room (record c { lock = b })).available_ids ≡ (with_room c).available_ids
unfolding grow_ids
with_room-lock c b = ground arith
