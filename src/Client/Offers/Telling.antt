-- ===== src/Client/Offers/Telling.antt =====
-- src/client.c: the INVITED packet that client_make_invitation sends.
use jeux_game_server.Prelude.{
  ℕ, suc, ◌+◌, ◌<◌, ◌≡◌, refl, true, false, Option, some, List, ◌∷◌, ◌^◌, arith, length,
}
use jeux_game_server.Game.{
  Role, null_role, first_player_role, second_player_role, role_code, Status,
}
use jeux_game_server.Game.Text.{Text}
use jeux_game_server.Protocol.{
  Header, Write, Sending, create_header, invited_pkt, proto_send_packet,
}
use jeux_game_server.World.{
  Ptr, Player, Client, Invitation, World, ok, M, next_time, load_client, store_client, load_player,
  load_invitation, store_invitation, new_header, send_on, sem_post, update,
}
use jeux_game_server.World.Changing.{same_pointer, Holds}
use jeux_game_server.Player.{player_get_name}
use jeux_game_server.Client.Object.{lock_client, unlock_client}
use jeux_game_server.Client.Packets.{client_send_packet}
use jeux_game_server.Client.Packets.Going.{Goes, proto_send_packet-Goes}
use jeux_game_server.Client.Invites.Removing.{positive}
use jeux_game_server.Client.Offers.{announce, leave}
use jeux_game_server.Invitation.{inv_unref}

-- The packet that tells the target of an invitation.
abbrev pub invited_header : (ℕ × ℕ) → Option ℕ → Role → Text → Header
invited_header now id role name = create_header now invited_pkt id (role_code role) (length name)

module _ (again : Ptr → M Status) where
  pub announce-runs :
      (v : World) (s t inv a : Ptr) (role : Role) (sid tid : Option ℕ) (x y : Client) (pl : Player)
      (i : Invitation) (n : ℕ)
      → v.clients s ≡ some x
      → x.player ≡ some a
      → v.players a ≡ some pl
      → v.clients t ≡ some y
      → y.lock ≡ false
      → v.invitations inv ≡ some i
      → i.ref_count ≡ suc (suc n)
      → (h : Ptr → Option Client) × (k : Ptr → Option Invitation) × (announce again s t role inv sid
            tid v
          ≡ ok sid (record v {
            clients = h;
            invitations = k;
            clock = (next_time v.clock).1;
            writes =
                (proto_send_packet
                  (invited_header (next_time v.clock).0 tid role pl.name)
                  (some pl.name)
                  v.writes).2;
            sent =
                (
                  y.fd,
                  (proto_send_packet
                      (invited_header (next_time v.clock).0 tid role pl.name)
                      (some pl.name)
                      v.writes).1,
                )
                ∷ v.sent;
            semaphores = record v.semaphores { invite_op = v.semaphores.invite_op + 1 };
          }))
        × Holds h v.clients t (record y { lock = false })
        × Holds k v.invitations inv (record i { ref_count = suc n })
  unfolding announce leave player_get_name client_send_packet send_on new_header lock_client
      unlock_client load_client store_client load_player inv_unref load_invitation store_invitation
      sem_post
  announce-runs v s t inv a role sid tid x y pl i n e b c d l f g =
      rw (e, b, c, d, l, same_pointer t, d, same_pointer t)
        (
          update (update v.clients t (some (record y { lock = true }))) t
              (some (record y { lock = false })),
          update v.invitations inv (some (record i { ref_count = suc n })),
          rw (f, g, positive n) refl,
          (rw (same_pointer t) refl, λ q m. rw m refl),
          (rw (same_pointer inv) refl, λ q m. rw m refl),
        )

-- The roles as the INVITED packet writes them.
abbrev pub role_number : Role → ℕ
role_number null_role = 0
role_number first_player_role = 1
role_number second_player_role = 2

role_code-number : (role : Role) → role_code role ≡ role_number role
role_code-number null_role = refl
role_code-number first_player_role = refl
role_code-number second_player_role = refl

role_number-lt : (role : Role) → role_number role < 256
role_number-lt null_role = omega arith
role_number-lt first_player_role = omega arith
role_number-lt second_player_role = omega arith

-- An INVITED packet (11) to the target, with its ID and role and the name of the source's player.
abbrev pub Tells : ℕ → ℕ → Role → Text → World → World → Type 0
Tells fd id role name w w' =
    (p : Sending) × Goes fd 11 id (role_number role) (some name) p w.sent w'.sent

pub told :
    (fd : ℕ) (name : Text) (now : ℕ × ℕ) (id : ℕ) (role : Role) (ws : List Write)
    (before : List (ℕ × Text))
    → length name < 2 ^ 16
    → (p : Sending) × Goes fd 11 id (role_number role) (some name) p before (
        (fd, (proto_send_packet (invited_header now (some id) role name) (some name) ws).1)
        ∷ before)
told fd name now id role ws before h = (
  proto_send_packet (create_header now invited_pkt (some id) (role_number role) (length name))
      (some name) ws,
  rw (role_code-number role) (
      proto_send_packet-Goes fd now invited_pkt id (role_number role) (some name) ws before
        (role_number-lt role) h),
)
