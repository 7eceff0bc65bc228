-- ===== src/Client/Offers/Making.antt =====
-- src/client.c: how client_make_invitation ends for both clients.
use jeux_game_server.Prelude.{
  none, ℕ, ◌+◌, ◌-◌, ◌<◌, ◌≡◌, refl, ◌∙◌, false, Option, some, [], ◌==◌, ◌^◌, length,
}
use jeux_game_server.Game.{Role, Status}
use jeux_game_server.World.{
  open_state, Invitation, Ptr, Player, Client, World, Run, ok, fault, blocked, M, sem_wait,
}
use jeux_game_server.World.Changing.{Holds, HoldsTwo, other_way}
use jeux_game_server.Client.Ids.Entries.{IdsValid}
use jeux_game_server.Client.Offers.{offer, client_make_invitation}
use jeux_game_server.Client.Offers.Touching.{taken, back}
use jeux_game_server.Client.Offers.Creating.{counted, held_once, inv_create-runs}
use jeux_game_server.Client.Offers.Telling.{role_number}
use jeux_game_server.Client.Packets.Going.{Goes-along}
use jeux_game_server.Client.Offers.Offering.{Offers, OffersIn, offer-OffersIn}

-- An open invitation that two lists hold.
abbrev pub open_for_two : Ptr → Ptr → Role → Role → Invitation
open_for_two s t rs rt = record {
  state = open_state;
  ref_count = 2;
  source = s;
  target = t;
  game = none;
  source_role = rs;
  target_role = rt;
}

-- How client_make_invitation ends. The clients that are left have a reference more, and the
-- invitation is open and held by the two lists.
abbrev pub Makes :
    Ptr → Ptr → Role → Role → Client → Client → Player → World → Run (Option ℕ) → Type 0
Makes s t rs rt x y pl w (ok id w') =
    Offers w.fresh s t rt (counted x) (counted y) pl w id w'
    × Holds w'.invitations w.invitations w.fresh (open_for_two s t rs rt)
    × (w'.players ≡ w.players)
    × (w'.games ≡ w.games)
    × (w'.semaphores ≡ w.semaphores)
Makes s t rs rt x y pl w fault = ⊥
Makes s t rs rt x y pl w blocked = ⊥

OffersIn-Makes :
    (w v : World) (s t : Ptr) (rs rt : Role) (x y : Client) (pl : Player) (r : Run (Option ℕ))
    → HoldsTwo v.clients w.clients s (counted x) t (counted y)
    → Holds v.invitations w.invitations w.fresh (held_once s t rs rt)
    → v.players ≡ w.players
    → v.games ≡ w.games
    → v.sent ≡ w.sent
    → record v.semaphores { invite_op = v.semaphores.invite_op + 1 } ≡ w.semaphores
    → OffersIn w.fresh s t rt (counted x) (counted y) pl (held_once s t rs rt) v r
    → Makes s t rs rt x y pl w r
OffersIn-Makes w v s t rs rt x y pl (ok id w') (c, d, o) (i, j) p g z e
      ((m, (c', d', o'), hx, sx, hy, sy, (q, gone)), (i', j'), p', g', e') =
    (
      (
        m,
        (c', d', λ q n k. o' q n k ∙ o q n k),
        hx,
        sx,
        hy,
        sy,
        (q, Goes-along y.fd 11 m (role_number rt) (some pl.name) q v.sent w.sent _ _ z refl gone),
      ),
      (i', λ q n. j' q n ∙ j q n),
      p' ∙ p,
      g' ∙ g,
      e' ∙ e,
    )
OffersIn-Makes w v s t rs rt x y pl fault a b c d e f h = absurd h
OffersIn-Makes w v s t rs rt x y pl blocked a b c d e f h = absurd h

pub counted-IdsValid : (x : Client) → IdsValid x → IdsValid (counted x)
counted-IdsValid x v = record { size = v.size; own = v.own; usage = v.usage; room = v.room }

-- For two clients that are not locked and whose arrays of IDs are in order, of which the source
-- has a player with a name that fits a payload, with memory and the two semaphores to be had:
-- client_make_invitation always returns. It gives the source the least ID that is free, and the
-- target the least of its own; both lists have the new invitation at the front, and a search for
-- the ID finds it there; the invitation is open, has the two clients with their roles and no
-- game, and is counted twice; and each client has a reference more and is otherwise as it was.
-- One packet goes out: INVITED to the target, with the target's ID and role and the name of the
-- source's player, or the part of it that could be written. The other clients and invitations,
-- the players, the games and the semaphores are as they were.
pub client_make_invitation-Makes :
    (again : Ptr → M Status) (w : World) (s t a : Ptr) (rs rt : Role) (x y : Client) (pl : Player)
    → (s == t) ≡ false
    → w.clients s ≡ some x
    → w.clients t ≡ some y
    → x.lock ≡ false
    → y.lock ≡ false
    → IdsValid x
    → IdsValid y
    → x.player ≡ some a
    → w.players a ≡ some pl
    → length pl.name < 2 ^ 16
    → w.grants ≡ []
    → 0 < w.semaphores.invite
    → 0 < w.semaphores.invite_op
    → Makes s t rs rt x y pl w (client_make_invitation again s t rs rt w)
unfolding client_make_invitation sem_wait
client_make_invitation-Makes again w s t a rs rt x y pl o e f l m vx vy b c len g hi ho =
    let w1 = record w {
      semaphores = record w.semaphores { invite_op = w.semaphores.invite_op - 1 };
    } in
    let (h, k, r, two, one) = inv_create-runs w1 s t rs rt x y o (other_way s t o) e f l m g in
    let w2 = record w1 { clients = h; invitations = k; fresh = w.fresh + 1; grants = [] } in
    rw (taken w ho, r)
      (OffersIn-Makes w w2 s t rs rt x y pl (offer again s t rt w.fresh w2) two one refl refl refl
        (back w ho)
        (offer-OffersIn again w2 s t w.fresh a rt (counted x) (counted y) pl (held_once s t rs rt) o
          two.0 two.1 refl refl (counted-IdsValid x vx) (counted-IdsValid y vy) b c len one.0 refl
          refl hi))
