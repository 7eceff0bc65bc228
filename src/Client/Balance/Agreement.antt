-- ===== src/Client/Balance/Agreement.antt =====
-- src/client.c: the list of invitations and the array of IDs of every client, under every
-- operation.
use jeux_game_server.Prelude.{ℕ, ◌≡◌, Option, none, some, refl}
use jeux_game_server.Game.{Role}
use jeux_game_server.Game.Text.{Text}
use jeux_game_server.World.{Ptr, Client, World, M}
use jeux_game_server.World.Keeps.{Keeps, weaken}
use jeux_game_server.Client.Offers.{
  client_make_invitation, client_revoke_invitation, client_decline_invitation,
  client_accept_invitation,
}
use jeux_game_server.Client.Play.{client_resign_game, client_make_move}
use jeux_game_server.Client.Session.{client_logout}
use jeux_game_server.Client.Lists.{MovesAt}
use jeux_game_server.Client.Lists.Lookup.{Agrees, Moves-Agrees}
use jeux_game_server.Client.Outside.{SameOp}
use jeux_game_server.Client.Balance.Logout.{operations-balanced}

-- Whoever is there after it was there before, and its list and array agree if they did.
abbrev pub StaysAgreed : World → World → Type 0
StaysAgreed w w' =
    (p : Ptr) (c' : Client)
    → w'.clients p ≡ some c'
    → (c : Client) × (w.clients p ≡ some c) × (Agrees c → Agrees c')

pub agreed_at :
    (o o' : Option Client) (c' : Client)
    → MovesAt o o'
    → o' ≡ some c'
    → (c : Client) × (o ≡ some c) × (Agrees c → Agrees c')
agreed_at none o' c' m e = cc
agreed_at (some c) none c' m e = cc
agreed_at (some c) (some d) c' m e = (c, refl, λ a. rw (← same e) (Moves-Agrees c d m a))
  where
    same : some d ≡ some c' → d ≡ c'
    same e = cc

agreed : {A : Type 0} {m : M A} → Keeps SameOp m → Keeps StaysAgreed m
agreed k = weaken (λ w w' e p c' h. agreed_at (w.clients p) (w'.clients p) c' (e.2 p) h) k

-- Whatever operation is called, and however deep client_logout nests in it: wherever the call
-- returns, errors included, each client that is left was there before; and if its array of IDs
-- was in order and an ID was taken exactly when one node of its list of invitations had it, so it
-- is still. No operation leaks an ID or gives it to two invitations.
pub operations-StaysAgreed :
    (depth : ℕ)
    → ((s t : Ptr) (r q : Role)
        → Keeps StaysAgreed (client_make_invitation (client_logout depth) s t r q))
      × ((c : Ptr) (id : ℕ)
          → Keeps StaysAgreed (client_revoke_invitation (client_logout depth) c id))
      × ((c : Ptr) (id : ℕ)
          → Keeps StaysAgreed (client_decline_invitation (client_logout depth) c id))
      × ((c : Ptr) (id : ℕ) → Keeps StaysAgreed (client_accept_invitation c id))
      × ((c : Ptr) (id : ℕ) → Keeps StaysAgreed (client_resign_game (client_logout depth) c id))
      × ((c : Ptr) (id : ℕ) (m : Text)
          → Keeps StaysAgreed (client_make_move (client_logout depth) c id m))
      × ((c : Ptr) → Keeps StaysAgreed (client_logout depth c))
operations-StaysAgreed depth =
    let (make, revoke, decline, accept, resign, move, logout) = operations-balanced depth in
    (
      λ s t r q. agreed (make s t r q),
      λ c id. agreed (revoke c id),
      λ c id. agreed (decline c id),
      λ c id. agreed (accept c id),
      λ c id. agreed (resign c id),
      λ c id m. agreed (move c id m),
      λ c. agreed (logout c),
    )
