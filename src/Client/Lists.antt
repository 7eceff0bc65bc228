-- ===== src/Client/Lists.antt =====
-- src/client.c: the list of invitations of a client and its array of IDs, together. An ID is in use
-- in the array while a node of the list has it.
pub mod Steps
pub mod Lookup
pub mod Finding
use jeux_game_server.Prelude.{
  ℕ, zero, suc, ◌+◌, ◌-◌, ◌≤◌, ◌<◌, ◌≡◌, refl, sym, ap, ◌∙◌, Bool, true, false, Option, none, some,
  List, [], ◌∷◌, ◌++◌, arith, ◌==◌, ==_iff, leb, if◌then◌else◌, length, set, inl, inr, Bool-cases,
}
use jeux_game_server.World.{Ptr, InvitationNode, Client}
use jeux_game_server.Client.Object.{ids_from, initial_client}
use jeux_game_server.Client.Ids.{take_first, grow_ids, allot_id, free_id}
use jeux_game_server.Client.Ids.Entries.{
  IdsValid, Own, entry, ids_from-Own, length-ids_from, taken-ids_from,
}
use jeux_game_server.Client.Ids.Allot.{
  with_room, allot_id-IsLowest, free_id-IdsValid, allot_id-invite_head,
}
use jeux_game_server.Client.Invites.{id_is, find_id, unlink, holds}

-- 1 for an ID of the array that is taken, 0 for any other.
abbrev pub mark : List (Option ℕ) → ℕ → ℕ
mark [] id = 0
mark (none ∷ ids) zero = 1
mark (some n ∷ ids) zero = 0
mark (none ∷ ids) (suc id) = mark ids id
mark (some n ∷ ids) (suc id) = mark ids id

abbrev pub hit : Option ℕ → ℕ → ℕ
hit o id = if id_is o id then 1 else 0

-- The number of nodes that have an ID.
abbrev pub uses : List InvitationNode → ℕ → ℕ
uses [] id = 0
uses (n ∷ nodes) id = hit n.id id + uses nodes id

-- Every node has an ID.
abbrev pub Named : List InvitationNode → Type 0
Named [] = Unit {0}
Named (n ∷ nodes) = ((id : ℕ) × (n.id ≡ some id)) × Named nodes

-- What holds at every moment: the array is in order, and an ID that a node has is taken, by one
-- node.
pub record Sound (c : Client) : Type 0 where
  pub ids : IdsValid c
  pub named : Named c.invite_head
  pub within : (id : ℕ) → uses c.invite_head id ≤ mark c.available_ids id

-- The IDs that are taken and have no node stay the same.
abbrev pub SameSpare : Client → Client → Type 0
SameSpare c c' =
    (id : ℕ)
    → mark c'.available_ids id + uses c.invite_head id
      ≡ mark c.available_ids id + uses c'.invite_head id

abbrev pub Moves : Client → Client → Type 0
Moves c c' = Sound c → Sound c' × SameSpare c c'

-- The same for an address, at which nobody is made anew.
abbrev pub MovesAt : Option Client → Option Client → Type 0
MovesAt none o = o ≡ none
MovesAt (some c) none = Unit {0}
MovesAt (some c) (some c') = Moves c c'

pub Moves-same : (c : Client) → Moves c c
Moves-same c s = (s, λ id. refl)

pub MovesAt-same : (o : Option Client) → MovesAt o o
MovesAt-same none = refl
MovesAt-same (some c) = Moves-same c

pub Moves-then : (a b c : Client) → Moves a b → Moves b c → Moves a c
Moves-then a b c f g s =
    let (t, e) = f s in let (u, d) = g t in (u, λ id. omega (arith, e id, d id))

pub MovesAt-then : (a b c : Option Client) → MovesAt a b → MovesAt b c → MovesAt a c
MovesAt-then none b c f g = rw f at g
MovesAt-then (some a) none none f g = tt
MovesAt-then (some a) none (some c) f g = cc
MovesAt-then (some a) (some b) none f g = tt
MovesAt-then (some a) (some b) (some c) f g = Moves-then a b c f g

-- A change of the other fields of a client.
pub Moves-fields :
    (c c' : Client)
    → c'.available_ids ≡ c.available_ids
    → c'.id_usage ≡ c.id_usage
    → c'.current_id_size ≡ c.current_id_size
    → c'.invite_head ≡ c.invite_head
    → Moves c c'
Moves-fields c c' a u s h t = (
  record {
    ids = record {
      size = rw (a, s) t.ids.size;
      own = rw a t.ids.own;
      usage = rw (a, u) t.ids.usage;
      room = rw s t.ids.room;
    };
    named = rw h t.named;
    within = λ id. rw (a, h) (t.within id);
  },
  λ id. rw (a, h) refl,
)

-- The array.
pub mark-le-one : (ids : List (Option ℕ)) (id : ℕ) → mark ids id ≤ 1
mark-le-one [] id = omega arith
mark-le-one (none ∷ ids) zero = omega arith
mark-le-one (some n ∷ ids) zero = omega arith
mark-le-one (none ∷ ids) (suc id) = mark-le-one ids id
mark-le-one (some n ∷ ids) (suc id) = mark-le-one ids id

pub mark_taken :
    (ids : List (Option ℕ)) (id : ℕ) → 1 ≤ mark ids id → (id < length ids) × (entry ids id ≡ none)
mark_taken [] id h = absurd (omega arith)
mark_taken (none ∷ ids) zero h = (omega arith, refl)
mark_taken (some n ∷ ids) zero h = absurd (omega arith)
mark_taken (none ∷ ids) (suc id) h = let (l, e) = mark_taken ids id h in (omega arith, e)
mark_taken (some n ∷ ids) (suc id) h = let (l, e) = mark_taken ids id h in (omega arith, e)

mark-ids_from : (i n id : ℕ) → mark (ids_from i n) id ≡ 0
unfolding ids_from
mark-ids_from i zero id = refl
mark-ids_from i (suc n) zero = refl
mark-ids_from i (suc n) (suc id) = mark-ids_from (i + 1) n id

mark-append :
    (ids more : List (Option ℕ)) (id : ℕ)
    → ((j : ℕ) → mark more j ≡ 0)
    → mark (ids ++ more) id ≡ mark ids id
mark-append [] more id h = h id
mark-append (none ∷ ids) more zero h = refl
mark-append (some n ∷ ids) more zero h = refl
mark-append (none ∷ ids) more (suc id) h = mark-append ids more id h
mark-append (some n ∷ ids) more (suc id) h = mark-append ids more id h

pub mark-with_room :
    (c : Client) (id : ℕ) → mark (with_room c).available_ids id ≡ mark c.available_ids id
unfolding grow_ids
mark-with_room c id = elim (Bool-cases (leb c.current_id_size c.id_usage)) [
  | inl full ↦ rw full (mark-append c.available_ids _ id λ j. mark-ids_from _ _ j)
  | inr space ↦ rw space refl
]

take_first-from :
    (i : ℕ) (ids : List (Option ℕ)) (k : ℕ) → Own i ids → (take_first ids).0 ≡ some k → i ≤ k
unfolding take_first
take_first-from i [] k o e = cc
take_first-from i (none ∷ ids) k o e = omega (arith, take_first-from (i + 1) ids k o e)
take_first-from i (some n ∷ ids) k o e = ground arith

pub mark-take_first :
    (i : ℕ) (ids : List (Option ℕ)) (k id : ℕ)
    → Own i ids
    → (take_first ids).0 ≡ some k
    → mark (take_first ids).1 id ≡ mark ids id + hit (some k) (i + id)
unfolding take_first
mark-take_first i [] k id o e = cc
mark-take_first i (none ∷ ids) k zero o e = ground (arith, take_first-from (i + 1) ids k o e)
mark-take_first i (none ∷ ids) k (suc id) o e = ground (arith, mark-take_first (i + 1) ids k id o e)
mark-take_first i (some n ∷ ids) k zero o e = ground arith
mark-take_first i (some n ∷ ids) k (suc id) o e = ground arith

pub mark-set :
    (ids : List (Option ℕ)) (k n id : ℕ)
    → k < length ids
    → entry ids k ≡ none
    → mark (set ids k (some n)) id + hit (some k) id ≡ mark ids id
mark-set [] k n id h e = elim h [ ]
mark-set (none ∷ ids) zero n zero h e = ground arith
mark-set (none ∷ ids) zero n (suc id) h e = ground arith
mark-set (some m ∷ ids) zero n id h e = cc
mark-set (none ∷ ids) (suc k) n zero h e = ground arith
mark-set (none ∷ ids) (suc k) n (suc id) h e = ground (arith, mark-set ids k n id (omega arith) e)
mark-set (some m ∷ ids) (suc k) n zero h e = ground arith
mark-set (some m ∷ ids) (suc k) n (suc id) h e = ground (arith, mark-set ids k n id (omega arith) e)

-- The list.
pub uses-unlink :
    (nodes : List InvitationNode) (inv id : ℕ)
    → holds nodes inv ≡ true
    → uses nodes id ≡ uses (unlink nodes inv) id + hit (find_id nodes inv) id
unfolding holds unlink find_id
uses-unlink [] inv id h = cc
uses-unlink (n ∷ nodes) inv id h = elim (Bool-cases (n.invitation == inv)) [
  | inl e ↦ rw e (omega arith)
  | inr e ↦ rw e (omega (arith, uses-unlink nodes inv id (rw e at h)))
]

pub unlink-Named :
    (nodes : List InvitationNode) (inv : Ptr) → Named nodes → Named (unlink nodes inv)
unfolding unlink
unlink-Named [] inv n = n
unlink-Named (m ∷ nodes) inv n = elim (Bool-cases (m.invitation == inv)) [
  | inl e ↦ rw e n.1
  | inr e ↦ rw e (n.0, unlink-Named nodes inv n.1)
]
