-- ===== src/Client/Ids/Giving.antt =====
-- src/client.c: what get_available_id leaves.
use jeux_game_server.Prelude.{
  ℕ, ◌≡◌, refl, ap, true, false, Option, some, [], leb, Bool-cases, inl, inr,
}
use jeux_game_server.World.{Ptr, Client, World, ok, load_client, store_client, granted, update}
use jeux_game_server.Client.Object.{lock_client, unlock_client}
use jeux_game_server.Client.Ids.{allot_id, get_available_id}
use jeux_game_server.Client.Ids.Allot.{with_room}
use jeux_game_server.World.Changing.{same_pointer, Holds}

-- The client while get_available_id holds its lock.
abbrev pub locked : Client → Client
locked x = record x { lock = true }

-- The ID that get_available_id gives, and the client that it leaves.
abbrev pub given_id : Client → Option ℕ
given_id x = (allot_id (with_room (locked x))).0

abbrev pub allotted : Client → Client
allotted x = record (allot_id (with_room (locked x))).1 { lock = false }

-- A client that is stored when it is locked, changed and unlocked.
abbrev pub stores : (Ptr → Option Client) → Ptr → Client → Client → Ptr → Option Client
stores g p x y =
    update (update (update g p (some (locked x))) p (some y)) p (some (record y { lock = false }))

pub get_available_id-runs :
    (w : World) (p : Ptr) (x : Client)
    → w.clients p ≡ some x
    → x.lock ≡ false
    → w.grants ≡ []
    → (h : Ptr → Option Client) × (get_available_id p w
        ≡ ok (allot_id (with_room (locked x))).0 (record w { clients = h; grants = [] }))
      × Holds h w.clients p (allotted x)
unfolding get_available_id lock_client unlock_client load_client store_client granted
get_available_id-runs w p x e l m = elim (Bool-cases (leb x.current_id_size x.id_usage)) [
  | inl f ↦
      rw (e, l, m, same_pointer p, f, same_pointer p)
        (
          stores w.clients p x (allot_id (with_room (locked x))).1,
          rw f refl,
          (rw (same_pointer p, f) refl, λ q n. rw n refl),
        )
  | inr f ↦
      rw (e, l, same_pointer p, f, same_pointer p)
        (
          stores w.clients p x (allot_id (with_room (locked x))).1,
          rw f (
              ap
                (λ g.
                  ok (allot_id (locked x)).0 (record w {
                    clients = stores w.clients p x (allot_id (locked x)).1;
                    grants = g;
                  }))
                m),
          (rw (same_pointer p, f) refl, λ q n. rw n refl),
        )
]
