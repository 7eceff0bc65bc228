-- ===== src/Client/Lists/Steps.antt =====
-- src/client.c: the list and the array of IDs when an invitation is added and when one is removed.
use jeux_game_server.Prelude.{
  ℕ, ◌+◌, ◌≤◌, ◌<◌, ◌≡◌, refl, ap, ◌∙◌, true, Option, some, ◌∷◌, arith, inl, inr, Option-cases,
}
use jeux_game_server.World.{Ptr, Client}
use jeux_game_server.Client.Ids.{take_first, allot_id, free_id}
use jeux_game_server.Client.Ids.Entries.{IdsValid}
use jeux_game_server.Client.Ids.Allot.{
  with_room, with_room-IdsValid, allot_id-IsLowest, free_id-IdsValid, allot_id-invite_head,
}
use jeux_game_server.Client.Invites.{find_id, unlink, holds}
use jeux_game_server.Client.Lists.{
  mark, hit, uses, Sound, SameSpare, Moves, mark-with_room, mark-take_first, mark-set, mark_taken,
  mark-le-one, uses-unlink, unlink-Named,
}

-- A client `y` in which an ID has been taken, for a node that is still to come.
abbrev pub Given : Client → Option ℕ → Client → Type 0
Given x id y =
    Sound x
    → (n : ℕ) × (id ≡ some n)
      × IdsValid y
      × (y.invite_head ≡ x.invite_head)
      × ((j : ℕ) → mark y.available_ids j ≡ mark x.available_ids j + hit (some n) j)

mark-allot_id :
    (c : Client) (n j : ℕ)
    → IdsValid c
    → (allot_id c).0 ≡ some n
    → mark (allot_id c).1.available_ids j ≡ mark c.available_ids j + hit (some n) j
unfolding allot_id
mark-allot_id c n j v e = elim (Option-cases (take_first c.available_ids).0) [
  | inl none_left ↦ cc (rw (none_left, allot_id) at e)
  | inr (id, found) ↦
      rw (found, allot_id)
        (mark-take_first 0 c.available_ids n j v.own (found ∙ (rw (found, allot_id) at e))
          ∙ zero_add j)
]
  where
    zero_add :
        (j : ℕ)
        → mark c.available_ids j + hit (some n) (0 + j) ≡ mark c.available_ids j + hit (some n) j
    zero_add j = ap (λ k. mark c.available_ids j + hit (some n) k) (omega arith)

pub allot_id-Given : (x : Client) → Given x (allot_id (with_room x)).0 (allot_id (with_room x)).1
allot_id-Given x s =
    let (n, e, lowest, v) = allot_id-IsLowest x s.ids in
    (
      n,
      e,
      v,
      allot_id-invite_head x,
      λ j.
          mark-allot_id (with_room x) n j (with_room-IdsValid x s.ids) e
          ∙ ap (λ m. m + hit (some n) j) (mark-with_room x j),
    )

-- The node is put in front of the list.
pub linked :
    (x y : Client) (id : Option ℕ) (inv : Ptr)
    → Given x id y
    → Moves x (record y { invite_head = record { id = id; invitation = inv } ∷ y.invite_head })
linked x y id inv g s =
    let (n, e, v, h, m) = g s in
    (
      record {
        ids = record { size = v.size; own = v.own; usage = v.usage; room = v.room };
        named = ((n, e), rw h s.named);
        within = λ j. rw (e, h) (omega (arith, m j, s.within j));
      },
      λ j. rw (e, h) (omega (arith, m j)),
    )

-- A node has left the list, and its ID is still taken.
abbrev pub unlinked : Client → Ptr → Client
unlinked x inv = record x { invite_head = unlink x.invite_head inv }

unlinked-Sound :
    (x : Client) (inv : Ptr) → holds x.invite_head inv ≡ true → Sound x → Sound (unlinked x inv)
unlinked-Sound x inv h s = record {
  ids = record { size = s.ids.size; own = s.ids.own; usage = s.ids.usage; room = s.ids.room };
  named = unlink-Named x.invite_head inv s.named;
  within = λ j. omega (arith, uses-unlink x.invite_head inv j h, s.within j);
}

hit_self : (n : ℕ) → hit (some n) n ≡ 1
hit_self n = ground arith

-- The ID is given back, whatever has happened to the client in between.
pub freed :
    (x y : Client) (inv : Ptr) (n : ℕ)
    → holds x.invite_head inv ≡ true
    → find_id x.invite_head inv ≡ some n
    → Moves (unlinked x inv) y
    → Sound x
    → (n < y.current_id_size) × Sound (free_id y n) × SameSpare x (free_id y n)
unfolding free_id
freed x y inv n h f moves s =
    let (t, spare) = moves (unlinked-Sound x inv h s) in
    let own : uses x.invite_head n ≡ uses (unlink x.invite_head inv) n + 1 =
      uses-unlink x.invite_head inv n h ∙ rw (f, hit_self n) refl in
    let used : 1 ≤ mark y.available_ids n =
      omega (arith, own, spare n, s.within n, mark-le-one x.available_ids n) in
    let (l, e) = mark_taken y.available_ids n used in
    let set_mark = λ (j : ℕ). mark-set y.available_ids n n j l e in
    let lists = λ (j : ℕ).
      uses-unlink x.invite_head inv j h
      ∙ ap (λ (o : Option ℕ). uses (unlink x.invite_head inv) j + hit o j) f in
    (
      omega (arith, t.ids.size),
      record {
        ids = free_id-IdsValid y n t.ids (omega (arith, t.ids.size)) e;
        named = t.named;
        within = λ j. omega (arith, set_mark j, spare j, lists j, s.within j);
      },
      λ j. omega (arith, set_mark j, spare j, lists j),
    )
