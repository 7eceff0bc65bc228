-- ===== src/Client/Balance/Parts.antt =====
-- src/client.c, src/invitation.c and src/player.c: the commands that an operation on an
-- invitation is made of leave its semaphore alone.
use jeux_game_server.Prelude.{
  ℕ, zero, suc, ◌≡◌, refl, inl, inr, not, Option, none, some, ◌==◌, Option-cases, if◌then◌else◌,
}
use jeux_game_server.Prelude.Int.{ℤ}
use jeux_game_server.Game.{Role, Status, success, failure}
use jeux_game_server.World.{
  Ptr, World, Client, Invitation, M, pure, ◌>>=◌, ◌>>◌, load_client, store_client, load_invitation,
  store_invitation,
}
use jeux_game_server.World.Keeps.{Keeps, Ends, Ends-after, branch, faults}
use jeux_game_server.Player.{player_post_result}
use jeux_game_server.Client.Object.{client_unref, client_get_player}
use jeux_game_server.Client.Invites.{
  find_id, client_get_invitation, client_get_invitation_id, client_add_invitation,
  client_remove_invitation, wait_invite, post_invite,
}
use jeux_game_server.Client.Play.{
  wait_elo, post_elo, post_players, post_player_results, part_of, take_part,
}
use jeux_game_server.Invitation.{
  close_open, close_accepted, unref_held, inv_unref, inv_get_source, inv_get_target, inv_get_game,
  inv_get_target_role, inv_close,
}
use jeux_game_server.Client.Balance.{
  same_rules, on_client_state, on_invitation_state, free_client-Same, granted-Same,
  load_invitation-Same, store_closed-Same, on_option, done, then_, sem_wait-Same, sem_post-Same,
}
use jeux_game_server.Client.Outside.{SameOp, stored, stored_client, same_then}
use jeux_game_server.Client.Lists.{Moves-fields}
use jeux_game_server.Client.Invites.Adding.{link}
use jeux_game_server.Client.Balance.Given.{adds-Same, post_invite-Same}
use jeux_game_server.Client.Balance.Removing.{removes-Same, take_out}
use jeux_game_server.Player.{drop_count}
use jeux_game_server.Client.Balance.Locks.{
  lock_client-Same, unlock_client-Same, lock_rules, unref_game-Same,
}
use jeux_game_server.Client.Balance.Stored.{kept, count-cases}

pub inv_get_source-Same : (p : Option Ptr) → Keeps SameOp (inv_get_source p)
unfolding inv_get_source
inv_get_source-Same none = search same_rules depth 20
inv_get_source-Same (some p) = search same_rules depth 20

pub inv_get_target-Same : (p : Option Ptr) → Keeps SameOp (inv_get_target p)
unfolding inv_get_target
inv_get_target-Same none = search same_rules depth 20
inv_get_target-Same (some p) = search same_rules depth 20

pub inv_get_game-Same : (p : Option Ptr) → Keeps SameOp (inv_get_game p)
unfolding inv_get_game
inv_get_game-Same none = search same_rules depth 20
inv_get_game-Same (some p) = search same_rules depth 20

pub inv_get_target_role-Same : (p : Option Ptr) → Keeps SameOp (inv_get_target_role p)
unfolding inv_get_target_role
inv_get_target_role-Same p = search same_rules depth 20

pub wait_invite-Same : Keeps SameOp wait_invite
wait_invite-Same = sem_wait-Same _ _ λ n s. (refl, refl)

pub client_get_invitation-Same : (p : Ptr) (id : ℕ) → Keeps SameOp (client_get_invitation p id)
unfolding client_get_invitation
client_get_invitation-Same p id = search lock_rules depth 20

pub client_get_invitation_id-Same :
    (c : Option Ptr) (i : Ptr) → Keeps SameOp (client_get_invitation_id c i)
unfolding client_get_invitation_id
client_get_invitation_id-Same c i = search lock_rules depth 20

pub client_add_invitation-Same : (p i : Ptr) → Keeps SameOp (client_add_invitation p i)
unfolding client_add_invitation link
client_add_invitation-Same p i =
    then_ _ _ wait_invite-Same λ _.
      then_ _ _ granted-Same λ node. then_ _ _ (branch node (done tt) faults) λ _. adds-Same p i

-- A reference to a client is dropped.
drop_rest :
    {B : Type 0} (w : World) (p : Ptr) (c : Client) (k : ℕ → M B) (n : ℕ)
    → w.clients p ≡ some c
    → ((left : ℕ) → Keeps SameOp (k left))
    → Ends SameOp w (
        (drop_count n >>= λ left. store_client p (some (record c { ref_count = left })) >> k left)
          w)
unfolding store_client
drop_rest w p c k zero e kk = tt
drop_rest w p c k (suc n) e kk =
    Ends-after SameOp SameOp SameOp w _ (k n _) same_then
      (stored_client w p (some (record c { ref_count = n }))
        (rw e (Moves-fields c _ refl refl refl refl)))
      ((kk n).run _)

drop_client-Same :
    {B : Type 0} (p : Ptr) (k : Client → ℕ → M B)
    → ((c : Client) (left : ℕ) → Keeps SameOp (k c left))
    → Keeps SameOp (
        load_client p >>= λ c. drop_count c.ref_count >>= λ left.
        store_client p (some (record c { ref_count = left })) >> k c left)
unfolding load_client store_client
drop_client-Same p k kk = record {
  run = λ w. elim (Option-cases (w.clients p)) [
    | inl e ↦ rw e tt
    | inr (c, e) ↦ rw e (drop_rest w p c (k c) c.ref_count e (kk c))
  ];
}

-- A nested call of client_logout leaves the semaphore alone too.
module _ (again : Ptr → M Status) (quiet : (p : Ptr) → Keeps SameOp (again p)) where
  pub client_unref-Same : (p : Ptr) → Keeps SameOp (client_unref again p)
  unfolding client_unref
  client_unref-Same p = then_ _ _ (lock_client-Same p) λ _. drop_client-Same p _ λ c left.
      then_ _ _ (unlock_client-Same p) λ _. branch _ (done tt) (
        then_ _ _ (on_client_state c.logged_in _ _ (done tt) (then_ _ _ (quiet p) λ _. done tt))
          λ _. free_client-Same p)

  unref_held-Same : (g : Option Ptr) → Keeps SameOp (unref_held g)
  unref_held-Same none = done tt
  unref_held-Same (some g) = unref_game-Same g

  -- What is left once the count is stored.
  unref_rest : Invitation → ℕ → Ptr → M (Unit {0})
  unref_rest i left p = if not (left == 0) then pure tt else do
    unref_held i.game
    client_unref again i.source
    client_unref again i.target
    store_invitation p none

  unref_rest-Same : (i : Invitation) (left : ℕ) (p : Ptr) → Keeps SameOp (unref_rest i left p)
  unfolding unref_rest
  unref_rest-Same i left p = search (same_rules, client_unref-Same, unref_held-Same) depth 30

  pub inv_unref-Same : (p : Ptr) → Keeps SameOp (inv_unref again p)
  unfolding inv_unref load_invitation store_invitation unref_rest
  inv_unref-Same p = record {
    run = λ w. elim (Option-cases (w.invitations p)) [
      | inl e ↦ rw e tt
      | inr (i, e) ↦ elim (count-cases i.ref_count) [
        | inl z ↦ rw (e, z) tt
        | inr (n, c) ↦
            rw (e, c)
              (Ends-after SameOp SameOp SameOp w _ (unref_rest i n p _) same_then
                (stored w p (some (record i { ref_count = n })) λ h d. kept w p i _ e refl d)
                ((unref_rest-Same i n p).run _))
      ]
    ];
  }

  pub client_remove_invitation-Same :
      (p i : Ptr) → Keeps SameOp (client_remove_invitation again p i)
  unfolding client_remove_invitation take_out
  client_remove_invitation-Same p i = then_ _ _ wait_invite-Same λ _.
      removes-Same p i (inv_unref again i) (post_invite >> pure none)
        (λ c. post_invite >> pure (find_id c.invite_head i)) (inv_unref-Same i)
        (then_ _ _ post_invite-Same λ _. done none) (λ c. then_ _ _ post_invite-Same λ _. done _)

-- Posting the result of a game.
pub player_post_result-Same : (p q : Option Ptr) (r : ℤ) → Keeps SameOp (player_post_result p q r)
unfolding player_post_result
player_post_result-Same none q r = done tt
player_post_result-Same (some p) none r = done tt
player_post_result-Same (some p) (some q) r = search same_rules depth 30

pub client_get_player-Same : (p : Option Ptr) → Keeps SameOp (client_get_player p)
unfolding client_get_player
client_get_player-Same none = done none
client_get_player-Same (some p) = search same_rules depth 30

wait_elo-Same : Keeps SameOp wait_elo
wait_elo-Same = sem_wait-Same _ _ λ n s. (refl, refl)

post_elo-Same : Keeps SameOp post_elo
post_elo-Same = sem_post-Same _ _ λ n s. (refl, refl)

post_players-Same : (p q : Option Ptr) (w : Role) → Keeps SameOp (post_players p q w)
unfolding post_players
post_players-Same none q w = search (same_rules, post_elo-Same) depth 30
post_players-Same (some p) none w = search (same_rules, post_elo-Same) depth 30
post_players-Same (some p) (some q) w =
    search (same_rules, post_elo-Same, player_post_result-Same) depth 30

pub post_player_results-Same : (c o : Ptr) (r w : Role) → Keeps SameOp (post_player_results c o r w)
unfolding post_player_results
post_player_results-Same c o r w =
    search (same_rules, wait_elo-Same, client_get_player-Same, post_players-Same) depth 30

pub part_of-Same : (c : Ptr) (i : Option Ptr) → Keeps SameOp (part_of c i)
unfolding part_of take_part
part_of-Same c i = search (same_rules, inv_get_source-Same, inv_get_target-Same) depth 30

close_open-Same : (p : Ptr) (i : Invitation) (r : Role) → Keeps SameOp (close_open p i r)
unfolding close_open
close_open-Same p i r =
    branch _ (done failure) (
      on_option i.game _ _ (then_ _ _ (store_closed-Same p i) λ _. done success)
        (λ _. done failure))

close_accepted-Same : (p : Ptr) (i : Invitation) (r : Role) → Keeps SameOp (close_accepted p i r)
unfolding close_accepted
close_accepted-Same p i r = on_option i.game _ _ (done failure) (λ a. search same_rules depth 30)

pub inv_close-Same : (i : Option Ptr) (r : Role) → Keeps SameOp (inv_close i r)
unfolding inv_close
inv_close-Same none r = done failure
inv_close-Same (some p) r = then_ _ _ (load_invitation-Same p) λ i.
    on_invitation_state i.state _ _ _ (close_open-Same p i r) (close_accepted-Same p i r)
      (done failure)
