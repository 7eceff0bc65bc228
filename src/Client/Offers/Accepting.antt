-- ===== src/Client/Offers/Accepting.antt =====
-- src/client.c: how client_accept_invitation ends for both clients.
use jeux_game_server.Prelude.{
  length, List, arith, ◌^◌, ℕ, ◌+◌, ◌-◌, ◌<◌, ◌≡◌, refl, false, Option, none, some, [], ◌∷◌, ◌==◌,
  ◌⊎◌, if◌then◌else◌, Bool-cases, inl, inr,
}
use jeux_game_server.Game.{Role, Status, success, failure, first_player_role, role_eq}
use jeux_game_server.Game.Text.{Text, game_unparse_state}
use jeux_game_server.Protocol.{
  Write, Header, Sending, create_header, accepted_pkt, proto_send_packet,
}
use jeux_game_server.World.{
  Ptr, Client, Invitation, open_state, accepted_state, World, Run, ok, fault, blocked, next_time,
  load_invitation, load_game, new_header, sem_wait, sem_post, update,
}
use jeux_game_server.World.Changing.{same_pointer, Holds, HoldsTwo, other_way}
use jeux_game_server.Client.Invites.{find_id, find_invitation}
use jeux_game_server.Client.Packets.Going.{Goes, proto_send_packet-Goes}
use jeux_game_server.Client.Offers.{
  GameString, no_string, game_string, freed_string, text_length, accept_game, leave,
  client_accept_invitation,
}
use jeux_game_server.Client.Offers.Touching.{
  taken, back, unlocked, touched, touched-Holds, get-runs, get_id-runs, send-runs,
}
use jeux_game_server.Invitation.{inv_get_game, inv_get_source, inv_get_target, inv_get_target_role}
use jeux_game_server.Invitation.States.{accepted_in, first_game, accept-open}

-- The text of a board on which nobody has moved.
abbrev pub first_board : Text
first_board = game_unparse_state first_game

-- What the source is sent, and what the target gets for its answer: the one that moves first has
-- the board.
abbrev pub for_source : Role → Option Text
for_source role = if role_eq role first_player_role then none else some first_board

abbrev pub for_target : Role → Status → GameString
for_target role success =
    if role_eq role first_player_role then game_string first_board else no_string
for_target role failure = if role_eq role first_player_role then freed_string else no_string

abbrev pub accepted_header : (ℕ × ℕ) → ℕ → Role → Header
accepted_header now n role =
    create_header now accepted_pkt (some n) 0 (text_length (for_source role))

short : length first_board < 2 ^ 16
unfolding game_unparse_state
short = omega arith

accepted_header-Goes :
    (fd : ℕ) (now : ℕ × ℕ) (n : ℕ) (role : Role) (ws : List Write) (before : List (ℕ × Text))
    → Goes fd 13 n 0
        (for_source role)
        (proto_send_packet (accepted_header now n role) (for_source role) ws)
        before
        ((fd, (proto_send_packet (accepted_header now n role) (for_source role) ws).1) ∷ before)
accepted_header-Goes fd now n role ws before = elim (Bool-cases (role_eq role first_player_role)) [
  | inl e ↦
      rw e
        (proto_send_packet-Goes fd now accepted_pkt n 0 none ws before (omega arith) (omega arith))
  | inr e ↦ rw e (
      proto_send_packet-Goes fd now accepted_pkt n 0 (some first_board) ws before (omega arith)
        short)
]

-- The invitation that is accepted.
abbrev pub open_between : Invitation → Ptr → Ptr → Invitation
open_between i s t = record i { state = open_state; source = s; target = t }

-- The game has begun, and the source is told; the status is that of the sending.
abbrev pub Accepts :
    Ptr → Ptr → Ptr → Client → Client → Invitation → ℕ → World → Run (Status × GameString) → Type 0
Accepts inv s t x y i n w (ok (status, text) w') =
    HoldsTwo w'.clients w.clients s (unlocked x) t (unlocked y)
    × Holds w'.invitations w.invitations inv
        (record (open_between i s t) { state = accepted_state; game = some w.fresh })
    × Holds w'.games w.games w.fresh first_game
    × (text ≡ for_target i.target_role status)
    × ((p : Sending) × Goes x.fd 13 n 0 (for_source i.target_role) p w.sent w'.sent
        × (status ≡ p.0))
    × (w'.players ≡ w.players)
    × (w'.semaphores ≡ w.semaphores)
Accepts inv s t x y i n w fault = ⊥
Accepts inv s t x y i n w blocked = ⊥

Status-cases : (r : Status) → (r ≡ success) ⊎ (r ≡ failure)
Status-cases success = inl refl
Status-cases failure = inr refl

-- The branch for an invitation that was accepted.
game-runs :
    (v : World) (s t inv a : Ptr) (x : Client) (i : Invitation) (n : ℕ)
    → v.clients s ≡ some x
    → x.lock ≡ false
    → find_id x.invite_head inv ≡ some n
    → v.invitations inv
      ≡ some (record (open_between i s t) { state = accepted_state; game = some a })
    → v.games a ≡ some first_game
    → accept_game (some inv) v
      ≡ ok
          (
            (proto_send_packet
                (accepted_header (next_time v.clock).0 n i.target_role)
                (for_source i.target_role)
                v.writes).0,
            for_target i.target_role
                (proto_send_packet
                  (accepted_header (next_time v.clock).0 n i.target_role)
                  (for_source i.target_role)
                  v.writes).0,
          )
          (record v {
            clients = touched (touched v.clients s x) s (unlocked x);
            clock = (next_time v.clock).1;
            writes =
                (proto_send_packet
                  (accepted_header (next_time v.clock).0 n i.target_role)
                  (for_source i.target_role)
                  v.writes).2;
            sent =
                (
                  x.fd,
                  (proto_send_packet
                      (accepted_header (next_time v.clock).0 n i.target_role)
                      (for_source i.target_role)
                      v.writes).1,
                )
                ∷ v.sent;
            semaphores = record v.semaphores { invite_op = v.semaphores.invite_op + 1 };
          })
unfolding accept_game leave inv_get_game inv_get_source inv_get_target_role load_invitation
    load_game new_header sem_post
game-runs v s t inv a x i n e l fx u g =
    rw
      (
        u,
        u,
        get_id-runs v s inv x e l,
        u,
        g,
        fx,
        send-runs (record v { clients = touched v.clients s x; clock = (next_time v.clock).1 }) s
            (unlocked x) (accepted_header (next_time v.clock).0 n i.target_role)
            (for_source i.target_role) (touched-Holds v.clients s x).0 refl,
      )
      (elim (Status-cases
        (proto_send_packet (accepted_header (next_time v.clock).0 n i.target_role)
          (for_source i.target_role) v.writes).0) [ inl c ↦ rw c refl | inr c ↦ rw c refl ])

-- For two clients that are not locked, an open invitation that both hold, each under an ID, and
-- memory, a mutex and the semaphore to be had: when the target accepts it,
-- client_accept_invitation always returns. The invitation is accepted with a new game, in which
-- the first player moves and nobody has moved; one packet goes out, ACCEPTED to the source with
-- the source's ID, or the part of it that could be written, and the status is that of the
-- sending, so that a failure of it is reported with the game begun; of the source and the target,
-- the one that moves first gets the text of the board, the source in the packet and the target as
-- the result, where it points to freed memory if the sending failed. The clients and their lists,
-- the other invitations and games, the players and the semaphores are as they were.
pub client_accept_invitation-Accepts :
    (w : World) (s t inv : Ptr) (x y : Client) (i : Invitation) (n id : ℕ)
    → (s == t) ≡ false
    → w.clients s ≡ some x
    → w.clients t ≡ some y
    → x.lock ≡ false
    → y.lock ≡ false
    → find_invitation y.invite_head id ≡ some inv
    → find_id x.invite_head inv ≡ some n
    → w.invitations inv ≡ some (open_between i s t)
    → w.grants ≡ []
    → 0 < w.semaphores.invite_op
    → Accepts inv s t x y i n w (client_accept_invitation t id w)
unfolding client_accept_invitation sem_wait inv_get_target load_invitation
client_accept_invitation-Accepts w s t inv x y i n id o e f l m fi fx u g ho =
    let w1 = record w {
      semaphores = record w.semaphores { invite_op = w.semaphores.invite_op - 1 };
      clients = touched w.clients t y;
    } in
    let w2 = record (accepted_in w1 inv (open_between i s t) (some w.fresh)) {
      games = update w.games w.fresh (some first_game);
      fresh = w.fresh + 1;
    } in
    rw
      (
        taken w ho,
        get-runs
            (record w {
              semaphores = record w.semaphores { invite_op = w.semaphores.invite_op - 1 };
            })
            t y id f m,
        fi,
        u,
        same_pointer t,
        accept-open w1 inv (open_between i s t) u g refl,
      )
      (rw
        (
          fi,
          game-runs w2 s t inv w.fresh x i n (rw (other_way s t o) e) l fx
              (rw (same_pointer inv) refl) (rw (same_pointer w.fresh) refl),
        )
        (
          (
            (touched-Holds (touched w2.clients s x) s (unlocked x)).0,
            rw o (touched-Holds w.clients t y).0,
            λ q a b. rw (a, b) refl,
          ),
          (rw (same_pointer inv) refl, λ q a. rw a refl),
          (rw (same_pointer w.fresh) refl, λ q a. rw a refl),
          refl,
          (
            proto_send_packet (accepted_header (next_time w.clock).0 n i.target_role)
                (for_source i.target_role) w.writes,
            accepted_header-Goes x.fd (next_time w.clock).0 n i.target_role w.writes w.sent,
            refl,
          ),
          refl,
          back w ho,
        ))
