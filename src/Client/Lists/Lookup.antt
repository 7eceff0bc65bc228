-- ===== src/Client/Lists/Lookup.antt =====
-- src/client.c: the search of client_get_invitation, where the list and the array of IDs agree.
use jeux_game_server.Prelude.{
  ℕ, zero, suc, ◌+◌, ◌≤◌, ◌<◌, ◌≡◌, ◌↔◌, refl, sym, Option, none, some, List, [], ◌∷◌, arith,
  length, inl, inr, Bool-cases,
}
use jeux_game_server.World.{Ptr, InvitationNode, Client}
use jeux_game_server.Client.Object.{initial_client}
use jeux_game_server.Client.Ids.Entries.{
  IdsValid, entry, ids_from-Own, length-ids_from, taken-ids_from,
}
use jeux_game_server.Client.Invites.{id_is, find_invitation}
use jeux_game_server.Client.Lists.{mark, uses, Named, Moves, mark-ids_from, mark_taken, mark-le-one}

-- The array is in order, every node has an ID, and an ID is taken exactly when a node has it,
-- which is then the only one.
pub record Agrees (c : Client) : Type 0 where
  pub ids : IdsValid c
  pub named : Named c.invite_head
  pub same : (id : ℕ) → uses c.invite_head id ≡ mark c.available_ids id

pub Moves-Agrees : (c c' : Client) → Moves c c' → Agrees c → Agrees c'
Moves-Agrees c c' m a =
    let (s, e) =
      m (record { ids = a.ids; named = a.named; within = λ id. omega (arith, a.same id) }) in
    record { ids = s.ids; named = s.named; same = λ id. omega (arith, e id, a.same id) }

pub initial_client-Agrees : (fd : ℕ) → Agrees (initial_client fd)
initial_client-Agrees fd = record {
  ids = record {
    size = length-ids_from 0 100;
    own = ids_from-Own 0 100;
    usage = taken-ids_from 0 100;
    room = omega arith;
  };
  named = tt;
  same = λ id. sym (mark-ids_from 0 100 id);
}

taken_mark :
    (ids : List (Option ℕ)) (id : ℕ) → id < length ids → entry ids id ≡ none → mark ids id ≡ 1
taken_mark [] id h e = elim h [ ]
taken_mark (none ∷ ids) zero h e = refl
taken_mark (some n ∷ ids) zero h e = cc
taken_mark (none ∷ ids) (suc id) h e = taken_mark ids id (omega arith) e
taken_mark (some n ∷ ids) (suc id) h e = taken_mark ids id (omega arith) e

rest : (k : ℕ) → 1 ≤ 0 + k → 1 ≤ k
rest k h = omega arith

used_found :
    (nodes : List InvitationNode) (id : ℕ)
    → 1 ≤ uses nodes id
    → (inv : Ptr) × (find_invitation nodes id ≡ some inv)
unfolding find_invitation
used_found [] id h = absurd (omega arith)
used_found (n ∷ nodes) id h = elim (Bool-cases (id_is n.id id)) [
  | inl e ↦ (n.invitation, rw e refl)
  | inr e ↦ let (inv, f) = used_found nodes id (rest (uses nodes id) (rw e at h)) in (inv, rw e f)
]

found_used :
    (nodes : List InvitationNode) (id : ℕ) (inv : Ptr)
    → find_invitation nodes id ≡ some inv
    → 1 ≤ uses nodes id
unfolding find_invitation
found_used [] id inv f = cc
found_used (n ∷ nodes) id inv f = elim (Bool-cases (id_is n.id id)) [
  | inl e ↦ rw e (omega arith)
  | inr e ↦ omega (arith, found_used nodes id inv (rw e at f))
]

-- An invitation is found under an ID exactly when the ID is taken, and no two nodes have one ID.
pub find_invitation-taken :
    (c : Client)
    → Agrees c
    → (id : ℕ)
    → (((inv : Ptr) × (find_invitation c.invite_head id ≡ some inv))
        ↔ ((id < length c.available_ids) × (entry c.available_ids id ≡ none)))
      × (uses c.invite_head id ≤ 1)
find_invitation-taken c a id = (
  (
    λ f.
        mark_taken c.available_ids id
          (omega (arith, found_used c.invite_head id f.0 f.1, a.same id)),
    λ t.
        used_found c.invite_head id
          (omega (arith, a.same id, taken_mark c.available_ids id t.0 t.1)),
  ),
  omega (arith, a.same id, mark-le-one c.available_ids id),
)
