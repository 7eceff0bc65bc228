-- ===== src/Client/Balance/Logout.antt =====
-- src/client.c: client_logout, however deep it nests, and with it every operation on an invitation.
use jeux_game_server.Prelude.{ℕ, zero, suc, refl, Option, none, some, List, [], ◌∷◌}
use jeux_game_server.Game.{Role, Status, success, failure}
use jeux_game_server.Game.Text.{Text}
use jeux_game_server.World.{Ptr, M, InvitationNode, Client}
use jeux_game_server.World.Keeps.{Keeps, branch, faults}
use jeux_game_server.Client.Offers.{
  client_make_invitation, client_revoke_invitation, client_decline_invitation,
  client_accept_invitation,
}
use jeux_game_server.Client.Play.{client_resign_game, client_make_move}
use jeux_game_server.Client.Session.{
  wait_logout, post_logout, with_id, give_up, give_up_all, logout_in, logout_step, client_logout,
}
use jeux_game_server.Client.Balance.{
  gets, change-Same, player_unref-Same, then_, done, on_client_state, load_client-Same,
  sem_wait-Same, sem_post-Same,
}
use jeux_game_server.Client.Lists.{Moves-fields}
use jeux_game_server.Client.Outside.{SameOp}
use jeux_game_server.Client.Balance.Locks.{player_get_name-Same}
use jeux_game_server.Client.Balance.Parts.{inv_get_source-Same, inv_get_game-Same}
use jeux_game_server.Client.Balance.Operations.{
  make-balanced, revoke-balanced, decline-balanced, accept-balanced, resign-balanced, move-balanced,
}

wait_logout-Same : Keeps SameOp wait_logout
wait_logout-Same = sem_wait-Same _ _ λ n s. (refl, refl)

post_logout-Same : Keeps SameOp post_logout
post_logout-Same = sem_post-Same _ _ λ n s. (refl, refl)

module _ (again : Ptr → M Status) (quiet : (p : Ptr) → Keeps SameOp (again p)) where
  with_id-Same :
      (id : Option ℕ) (f : ℕ → M Status)
      → ((n : ℕ) → Keeps SameOp (f n))
      → Keeps SameOp (with_id id f)
  with_id-Same none f k = faults
  with_id-Same (some id) f k = k id

  give_up-Same : (c : Ptr) (n : InvitationNode) → Keeps SameOp (give_up again c n)
  unfolding give_up
  give_up-Same c n = then_ _ _ (inv_get_game-Same (some n.invitation)) (elim [
    | none ↦ then_ _ _ (inv_get_source-Same (some n.invitation)) λ s.
        branch _ (with_id-Same n.id _ (revoke-balanced again quiet c))
          (with_id-Same n.id _ (decline-balanced again quiet c))
    | some g ↦ with_id-Same n.id _ (resign-balanced again quiet c)
  ])

  give_up_all-Same :
      (c : Ptr) (nodes : List InvitationNode) → Keeps SameOp (give_up_all again c nodes)
  unfolding give_up_all
  give_up_all-Same c [] = done tt
  give_up_all-Same c (n ∷ nodes) = then_ _ _ (give_up-Same c n) λ _. give_up_all-Same c nodes

  logout_in-Same : (p : Ptr) (c : Client) → Keeps SameOp (logout_in again p c)
  unfolding logout_in
  logout_in-Same p c = then_ _ _ (gets c.player) λ q. then_ _ _ (player_get_name-Same q) λ _.
      then_ _ _ wait_logout-Same λ _. then_ _ _ (give_up_all-Same p c.invite_head) λ _.
        then_ _ _ (gets c.player) λ q. then_ _ _ (player_unref-Same q) λ _.
          change-Same p _ _ (λ d. Moves-fields d _ refl refl refl refl)
            λ d. then_ _ _ post_logout-Same λ _. done success

  logout_step-Same : (p : Ptr) → Keeps SameOp (logout_step again p)
  unfolding logout_step
  logout_step-Same p =
      then_ _ _ (load_client-Same p)
        λ c. on_client_state c.logged_in _ _ (done failure) (logout_in-Same p c)

pub client_logout-Same : (depth : ℕ) (p : Ptr) → Keeps SameOp (client_logout depth p)
unfolding client_logout
client_logout-Same zero p = faults
client_logout-Same (suc depth) p =
    logout_step-Same (client_logout depth) (client_logout-Same depth) p

-- Making, revoking, declining, accepting, resigning, moving and logging out, with client_logout
-- nested to any depth: on every path that returns, errors included, the semaphore
-- CLIENT_INVITE_OP_SEM counts what it counted before; the two registries, CLIENT_LOGIN_SEM and the
-- connections that are shut are as they were; and packets are only added to those that went out.
pub operations-balanced :
    (depth : ℕ)
    → ((s t : Ptr) (r q : Role)
        → Keeps SameOp (client_make_invitation (client_logout depth) s t r q))
      × ((c : Ptr) (id : ℕ) → Keeps SameOp (client_revoke_invitation (client_logout depth) c id))
      × ((c : Ptr) (id : ℕ) → Keeps SameOp (client_decline_invitation (client_logout depth) c id))
      × ((c : Ptr) (id : ℕ) → Keeps SameOp (client_accept_invitation c id))
      × ((c : Ptr) (id : ℕ) → Keeps SameOp (client_resign_game (client_logout depth) c id))
      × ((c : Ptr) (id : ℕ) (m : Text)
          → Keeps SameOp (client_make_move (client_logout depth) c id m))
      × ((c : Ptr) → Keeps SameOp (client_logout depth c))
operations-balanced depth = (
  make-balanced (client_logout depth) (client_logout-Same depth),
  revoke-balanced (client_logout depth) (client_logout-Same depth),
  decline-balanced (client_logout depth) (client_logout-Same depth),
  accept-balanced,
  resign-balanced (client_logout depth) (client_logout-Same depth),
  move-balanced (client_logout depth) (client_logout-Same depth),
  client_logout-Same depth,
)
