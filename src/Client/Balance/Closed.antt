-- ===== src/Client/Balance/Closed.antt =====
-- src/client.c: a closed invitation under every operation.
use jeux_game_server.Prelude.{ℕ}
use jeux_game_server.Game.{Role}
use jeux_game_server.Game.Text.{Text}
use jeux_game_server.World.{Ptr, M}
use jeux_game_server.World.Keeps.{Keeps}
use jeux_game_server.Client.Offers.{
  client_make_invitation, client_revoke_invitation, client_decline_invitation,
  client_accept_invitation,
}
use jeux_game_server.Client.Play.{client_resign_game, client_make_move}
use jeux_game_server.Client.Session.{client_logout}
use jeux_game_server.Client.Outside.{SameOp}
use jeux_game_server.Prelude.{◌<◌}
use jeux_game_server.World.{World}
use jeux_game_server.World.Keeps.{weaken}
use jeux_game_server.Client.Outside.{IsDead}
use jeux_game_server.Client.Balance.Logout.{operations-balanced}

-- The invitations that have been allocated and are closed or freed.
abbrev pub StaysDead : World → World → Type 0
StaysDead w w' = (p : Ptr) → p < w.fresh → IsDead (w.invitations p) → IsDead (w'.invitations p)

dead : {A : Type 0} {m : M A} → Keeps SameOp m → Keeps StaysDead m
dead k = weaken (λ w w' e. e.1.dead) k

-- Whatever operation is called, and however deep client_logout nests in it: an invitation that is
-- closed or freed is closed or freed wherever the call returns. No operation opens it or accepts
-- it again.
pub operations-StaysDead :
    (depth : ℕ)
    → ((s t : Ptr) (r q : Role)
        → Keeps StaysDead (client_make_invitation (client_logout depth) s t r q))
      × ((c : Ptr) (id : ℕ) → Keeps StaysDead (client_revoke_invitation (client_logout depth) c id))
      × ((c : Ptr) (id : ℕ)
          → Keeps StaysDead (client_decline_invitation (client_logout depth) c id))
      × ((c : Ptr) (id : ℕ) → Keeps StaysDead (client_accept_invitation c id))
      × ((c : Ptr) (id : ℕ) → Keeps StaysDead (client_resign_game (client_logout depth) c id))
      × ((c : Ptr) (id : ℕ) (m : Text)
          → Keeps StaysDead (client_make_move (client_logout depth) c id m))
      × ((c : Ptr) → Keeps StaysDead (client_logout depth c))
operations-StaysDead depth =
    let (make, revoke, decline, accept, resign, move, logout) = operations-balanced depth in
    (
      λ s t r q. dead (make s t r q),
      λ c id. dead (revoke c id),
      λ c id. dead (decline c id),
      λ c id. dead (accept c id),
      λ c id. dead (resign c id),
      λ c id m. dead (move c id m),
      λ c. dead (logout c),
    )
