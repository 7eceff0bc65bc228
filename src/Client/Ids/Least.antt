-- ===== src/Client/Ids/Least.antt =====
-- src/client.c: the ID that get_available_id returns and the array that it leaves.
use jeux_game_server.Prelude.{
  ℕ, ◌+◌, ◌*◌, ◌≤◌, ◌<◌, ◌≡◌, ◌≢◌, refl, ◌∙◌, true, false, Option, none, some, List, [], arith, leb,
  Bool-cases, inl, inr,
}
use jeux_game_server.World.{Ptr, Client, World, Run, ok, fault, blocked}
use jeux_game_server.World.Changing.{Holds}
use jeux_game_server.Client.Ids.{grow_ids, allot_id, get_available_id}
use jeux_game_server.Client.Ids.Entries.{Own, entry, IdsValid, grow_ids-IdsValid, allot_id-IdsValid}
use jeux_game_server.Client.Ids.Allot.{IsLowest, allot_id-IsLowest}
use jeux_game_server.Client.Ids.Giving.{locked, given_id, allotted, get_available_id-runs}
use jeux_game_server.Client.Ids.Restoring.{taken_id}
use jeux_game_server.Client.Ids.Lowest.{
  entry-append-before, allot_id-takes, take_first-TakenAt, grown-lowest,
}

-- The client that an ID is given to. While an ID is free, the lowest one is given. Where all are
-- in use the array is doubled, and the first ID of the second half is given. The given ID is then
-- in use, the other entries of the array and the rest of the client are as they were, and nobody
-- has locked it.
pub record Allots (n : ℕ) (x x' : Client) : Type 0 where
  pub free :
      x.id_usage < x.current_id_size
      → IsLowest x.available_ids n × (x'.current_id_size ≡ x.current_id_size)
  pub full :
      x.current_id_size ≤ x.id_usage
      → (n ≡ x.current_id_size) × (x'.current_id_size ≡ x.current_id_size * 2)
  pub given : entry x'.available_ids n ≡ none
  pub others :
      (j : ℕ) → j < x.current_id_size → n ≢ j → entry x'.available_ids j ≡ entry x.available_ids j
  pub ids : IdsValid x'
  pub usage : x'.id_usage ≡ x.id_usage + 1
  pub invite_head : x'.invite_head ≡ x.invite_head
  pub fd : x'.fd ≡ x.fd
  pub ref_count : x'.ref_count ≡ x.ref_count
  pub player : x'.player ≡ x.player
  pub logged_in : x'.logged_in ≡ x.logged_in
  pub unlocked : x'.lock ≡ false

-- The client in which an ID is looked for, with its array and the array's size.
abbrev searched : Client → List (Option ℕ) → ℕ → Client
searched x l m = record x { lock = true; available_ids = l; current_id_size = m }

searched-Allots :
    (x : Client) (l : List (Option ℕ)) (m n : ℕ)
    → Own 0 l
    → (allot_id (searched x l m)).0 ≡ some n
    → IdsValid (allot_id (searched x l m)).1
    → ((j : ℕ) → j < x.current_id_size → entry l j ≡ entry x.available_ids j)
    → (x.id_usage < x.current_id_size → IsLowest x.available_ids n × (m ≡ x.current_id_size))
    → (x.current_id_size ≤ x.id_usage → (n ≡ x.current_id_size) × (m ≡ x.current_id_size * 2))
    → Allots n x (record (allot_id (searched x l m)).1 { lock = false })
searched-Allots x l m n o e after front free full =
    let t = allot_id-takes (searched x l m) n e in
    let (here, rest) = take_first-TakenAt l n o (taken_id (searched x l m) n e) in
    let v = rw t at after in
    rw t (record {
      free = free;
      full = full;
      given = here;
      others = λ j h d. rest j d ∙ front j h;
      ids = record { size = v.size; own = v.own; usage = v.usage; room = v.room };
      usage = refl;
      invite_head = refl;
      fd = refl;
      ref_count = refl;
      player = refl;
      logged_in = refl;
      unlocked = refl;
    })

leb-true : (a b : ℕ) → leb a b ≡ true → a ≤ b
leb-true a b e = ground arith

leb-false : (a b : ℕ) → leb a b ≡ false → b < a
leb-false a b e = ground arith

locked-IdsValid : (x : Client) → IdsValid x → IdsValid (locked x)
locked-IdsValid x v = record { size = v.size; own = v.own; usage = v.usage; room = v.room }

-- The search in an array that has room, and in one that has been doubled.
free-Allots :
    (x : Client) (n : ℕ)
    → IdsValid x
    → x.id_usage < x.current_id_size
    → (allot_id (locked x)).0 ≡ some n
    → IsLowest x.available_ids n
    → Allots n x (record (allot_id (locked x)).1 { lock = false })
free-Allots x n v h e lowest =
    searched-Allots x x.available_ids x.current_id_size n v.own e
      (allot_id-IdsValid (locked x) (locked-IdsValid x v)) (λ j l. refl) (λ l. (lowest, refl))
      (λ l. absurd (omega arith))

grown-Allots :
    (x : Client) (n : ℕ)
    → IdsValid x
    → x.current_id_size ≤ x.id_usage
    → (allot_id (grow_ids (locked x))).0 ≡ some n
    → IsLowest (grow_ids (locked x)).available_ids n
    → Allots n x (record (allot_id (grow_ids (locked x))).1 { lock = false })
unfolding grow_ids
grown-Allots x n v h e lowest =
    let u = locked-IdsValid x v in
    let w = grow_ids-IdsValid (locked x) u in
    searched-Allots x (grow_ids (locked x)).available_ids (x.current_id_size * 2) n w.own e
      (allot_id-IdsValid (grow_ids (locked x)) w)
      (λ j l. entry-append-before x.available_ids _ j (omega (arith, v.size)))
      (λ l. absurd (omega arith)) (λ l. (grown-lowest (locked x) n u h lowest, refl))

pub allotted-Allots :
    (x : Client) → IdsValid x → (n : ℕ) × (given_id x ≡ some n) × Allots n x (allotted x)
allotted-Allots x v =
    let (n, e, lowest, after) = allot_id-IsLowest (locked x) (locked-IdsValid x v) in
    elim (Bool-cases (leb x.current_id_size x.id_usage)) [
      | inl f ↦ (n, e, rw f (grown-Allots x n v (leb-true _ _ f) (rw f at e) (rw f at lowest)))
      | inr f ↦ (n, e, rw f (free-Allots x n v (leb-false _ _ f) (rw f at e) (rw f at lowest)))
    ]

-- How a call of get_available_id ends.
abbrev pub GivesId : Ptr → Client → World → Run (Option ℕ) → Type 0
GivesId p x w (ok id w') =
    (n : ℕ) × (id ≡ some n)
    × ((x' : Client) × Holds w'.clients w.clients p x' × Allots n x x')
    × (w' ≡ record w { clients = w'.clients; grants = [] })
GivesId p x w fault = ⊥
GivesId p x w blocked = ⊥

-- Where every request for memory is met, for a client that nobody has locked and whose array of
-- IDs is in order: get_available_id always returns an ID. While the IDs in use are fewer than the
-- array's size, it is the lowest free one and the size stays; where they are as many, the array
-- is doubled and the ID is the old size. The ID is in use afterwards and the count of IDs in use
-- is one higher; the entries that the array had under the other IDs, the rest of the client and
-- the other clients are as they were; and the array is in order.
pub get_available_id-GivesId :
    (w : World) (p : Ptr) (x : Client)
    → w.clients p ≡ some x
    → x.lock ≡ false
    → w.grants ≡ []
    → IdsValid x
    → GivesId p x w (get_available_id p w)
get_available_id-GivesId w p x e l m v =
    let (h, r, c) = get_available_id-runs w p x e l m in
    let (n, s, a) = allotted-Allots x v in rw r (n, s, (allotted x, c, a), refl)
