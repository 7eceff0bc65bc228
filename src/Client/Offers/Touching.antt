-- ===== src/Client/Offers/Touching.antt =====
-- src/client.c: operations that only take and release a lock or a semaphore.
use jeux_game_server.Prelude.{
  ap, arith, ◌+◌, ◌-◌, ◌<◌, false, ℕ, ◌≡◌, refl, true, false, Option, some, List, [], ◌∷◌, ◌==◌,
  Bool-cases, inl, inr,
}
use jeux_game_server.Game.Text.{Text}
use jeux_game_server.Protocol.{PacketType, Header, create_header, proto_send_packet}
use jeux_game_server.World.{
  Ptr, Client, InvitationNode, World, ok, load_client, store_client, send_on, update,
}
use jeux_game_server.World.Changing.{same_pointer, Holds}
use jeux_game_server.Client.Object.{lock_client, unlock_client}
use jeux_game_server.Client.Packets.{client_send_packet}
use jeux_game_server.Client.Invites.{
  find_id, holds, find_invitation, client_get_invitation, client_get_invitation_id,
}

-- A client that nobody has locked.
abbrev pub unlocked : Client → Client
unlocked x = record x { lock = false }

pub find_id-holds :
    (nodes : List InvitationNode) (inv : Ptr) (n : ℕ)
    → find_id nodes inv ≡ some n
    → holds nodes inv ≡ true
unfolding find_id holds
find_id-holds [] inv n e = cc
find_id-holds (m ∷ nodes) inv n e = elim (Bool-cases (m.invitation == inv)) [
  | inl t ↦ rw t refl
  | inr f ↦ rw f (find_id-holds nodes inv n (rw f at e))
]

-- The lock is taken and released.
abbrev pub touched : (Ptr → Option Client) → Ptr → Client → Ptr → Option Client
touched g p x = update (update g p (some (record x { lock = true }))) p (some (unlocked x))

pub touched-Holds :
    (g : Ptr → Option Client) (p : Ptr) (x : Client) → Holds (touched g p x) g p (unlocked x)
touched-Holds g p x = (rw (same_pointer p) refl, λ q m. rw m refl)

pub get-runs :
    (w : World) (p : Ptr) (x : Client) (id : ℕ)
    → w.clients p ≡ some x
    → x.lock ≡ false
    → client_get_invitation p id w
      ≡ ok (find_invitation x.invite_head id) (record w { clients = touched w.clients p x })
unfolding client_get_invitation lock_client unlock_client load_client store_client
get-runs w p x id e l = rw (e, l, same_pointer p, same_pointer p) refl

pub get_id-runs :
    (w : World) (p inv : Ptr) (x : Client)
    → w.clients p ≡ some x
    → x.lock ≡ false
    → client_get_invitation_id (some p) inv w
      ≡ ok (find_id x.invite_head inv) (record w { clients = touched w.clients p x })
unfolding client_get_invitation_id lock_client unlock_client load_client store_client
get_id-runs w p inv x e l = rw (e, l, same_pointer p, same_pointer p) refl

pub send-runs :
    (w : World) (p : Ptr) (x : Client) (h : Header) (payload : Option Text)
    → w.clients p ≡ some x
    → x.lock ≡ false
    → client_send_packet p h payload w
      ≡ ok (proto_send_packet h payload w.writes).0 (record w {
        clients = touched w.clients p x;
        writes = (proto_send_packet h payload w.writes).2;
        sent = (x.fd, (proto_send_packet h payload w.writes).1) ∷ w.sent;
      })
unfolding client_send_packet send_on lock_client unlock_client load_client store_client
send-runs w p x h payload e l = rw (e, l, same_pointer p, same_pointer p) refl

pub bare :
    (now : ℕ × ℕ) (type : PacketType) (id : Option ℕ) → (create_header now type id 0 0).size ≡ 0
unfolding create_header
bare now type id = refl

-- CLIENT_INVITE_OP_SEM is taken and given back.
pub taken : (w : World) → 0 < w.semaphores.invite_op → (w.semaphores.invite_op == 0) ≡ false
taken w h = ground (arith, h)

pub back :
    (w : World)
    → 0 < w.semaphores.invite_op
    → record w.semaphores { invite_op = (w.semaphores.invite_op - 1) + 1 } ≡ w.semaphores
back w h = ap (λ k. record w.semaphores { invite_op = k }) (omega (arith, h))
