-- ===== src/Client/Balance/Operations.antt =====
-- src/client.c: every operation on an invitation gives its semaphore back on every path that
-- returns.
use jeux_game_server.Prelude.{
  ℕ, ◌+◌, ◌≡◌, refl, sym, ◌∙◌, Option, none, some, arith, ◌==◌, Bool-cases, inl, inr,
}
use jeux_game_server.Game.{Role, Status, success, failure, null_role}
use jeux_game_server.Game.Text.{Text}
use jeux_game_server.World.{Ptr, World, M, ◌>>=◌, sem_wait, sem_post}
use jeux_game_server.World.Keeps.{Keeps, Composes, bind, branch}
use jeux_game_server.Client.Offers.{
  no_string, wait_op, leave, announce, offer, remove_both, revoke_closed, decline_closed,
  accept_game, client_make_invitation, client_revoke_invitation, client_decline_invitation,
  client_accept_invitation,
}
use jeux_game_server.Client.Play.{
  Part, resign_closed, finish, moved, try_move, client_resign_game, client_make_move,
}
use jeux_game_server.Client.Balance.{
  Outside-semaphores, same_rules, new_header-Same, gets, load_game-Same, store_game-Same,
}
use jeux_game_server.Client.Outside.{
  lists, Lists, Lists-then, Outside, Outside-then, SameOp, OneMore, same_more,
}
use jeux_game_server.Client.Balance.Locks.{player_get_name-Same, client_send_packet-Same}
use jeux_game_server.Client.Balance.Stored.{inv_create-Same, inv_accept-Same}
use jeux_game_server.Client.Balance.Parts.{
  inv_get_source-Same, inv_get_target-Same, inv_get_game-Same, inv_get_target_role-Same,
  client_get_invitation-Same, client_get_invitation_id-Same, client_add_invitation-Same,
  inv_unref-Same, client_remove_invitation-Same, post_player_results-Same, part_of-Same,
  inv_close-Same,
}

more :
    {A B : Type 0} (m : M A) (f : A → M B)
    → Keeps SameOp m
    → ((a : A) → Keeps OneMore (f a))
    → Keeps OneMore (m >>= f)
more m f km kf = bind same_more km kf

leave-More : {A : Type 0} (a : A) → Keeps OneMore (leave a)
unfolding leave sem_post
leave-More a = record { run = λ w. (refl, Outside-semaphores w _ refl, lists w) }

more_option :
    {A B : Type 0} (o : Option A) (m : M B) (f : A → M B)
    → Keeps OneMore m
    → ((a : A) → Keeps OneMore (f a))
    → Keeps OneMore (elim o [ none ↦ m | some a ↦ f a ])
more_option none m f km kf = km
more_option (some a) m f km kf = kf a

more_status :
    {B : Type 0} (s : Status) (m n : M B)
    → Keeps OneMore m
    → Keeps OneMore n
    → Keeps OneMore (elim s [ success ↦ m | failure ↦ n ])
more_status success m n km kn = km
more_status failure m n km kn = kn

ruleset more_rules = (same_rules, more, leave-More)

-- The wait that an operation begins with.
abbrev OneLess : World → World → Type 0
OneLess w w' = (w.semaphores.invite_op ≡ w'.semaphores.invite_op + 1) × Outside w w' × Lists w w'

wait_op-Less : Keeps OneLess wait_op
unfolding sem_wait
wait_op-Less = record {
  run = λ w. elim (Bool-cases (w.semaphores.invite_op == 0)) [
    | inl e ↦ rw e tt
    | inr e ↦ rw e (ground arith, Outside-semaphores w _ refl, lists w)
  ];
}

less_more : Composes OneLess OneMore SameOp
less_more u v w (e, a, l) (d, b, k) = (d ∙ sym e, Outside-then u v w a b, Lists-then u v w l k)

operation :
    {B : Type 0} {f : Unit {0} → M B}
    → ((t : Unit {0}) → Keeps OneMore (f t))
    → Keeps SameOp (wait_op >>= f)
operation k = bind less_more wait_op-Less k

ruleset send_rules = (
  more_rules, client_send_packet-Same, client_get_invitation_id-Same, client_get_invitation-Same,
  inv_get_source-Same, inv_get_target-Same, inv_get_game-Same, inv_get_target_role-Same,
)

module _ (again : Ptr → M Status) (quiet : (p : Ptr) → Keeps SameOp (again p)) where
  announce-More :
      (s t : Ptr) (r : Role) (i : Ptr) (a b : Option ℕ) → Keeps OneMore (announce again s t r i a b)
  unfolding announce
  announce-More s t r i a b =
      search (send_rules, player_get_name-Same, inv_unref-Same again quiet) depth 40

  offer-More : (s t : Ptr) (r : Role) (i : Ptr) → Keeps OneMore (offer again s t r i)
  unfolding offer
  offer-More s t r i = more _ _ (client_add_invitation-Same s i) (elim [
    | none ↦ more _ _ (inv_unref-Same again quiet i) λ _. leave-More none
    | some a ↦
        more _ _ (client_add_invitation-Same t i)
          (elim [ none ↦ leave-More none | some b ↦ announce-More s t r i (some a) (some b) ])
  ])

  remove_both-More : (c o i : Ptr) → Keeps OneMore (remove_both again c o i)
  unfolding remove_both
  remove_both-More c o i = more _ _ (client_remove_invitation-Same again quiet c i) (elim [
    | none ↦ leave-More failure
    | some _ ↦
        more _ _ (client_remove_invitation-Same again quiet o i)
          λ r. more_option r _ _ (leave-More failure) (λ _. leave-More success)
  ])

  -- Making an invitation gives the semaphore back.
  pub make-balanced : (s t : Ptr) (r q : Role) → Keeps SameOp (client_make_invitation again s t r q)
  unfolding client_make_invitation
  make-balanced s t r q = operation λ _.
      more _ _ (inv_create-Same s t r q)
        λ i. more_option i _ _ (leave-More none) (λ i. offer-More s t q i)

  revoke_closed-More : (c i : Ptr) → Keeps OneMore (revoke_closed again c i)
  unfolding revoke_closed
  revoke_closed-More c i = more _ _ (inv_get_target-Same (some i)) λ t.
      more _ _ (client_get_invitation_id-Same t i) λ d. more _ _ (new_header-Same _ d 0 0) λ h.
        more _ _ (gets t) λ o.
          more _ _ (client_send_packet-Same o h none)
            λ r. more_status r _ _ (remove_both-More c o i) (leave-More failure)

  pub revoke-balanced : (c : Ptr) (id : ℕ) → Keeps SameOp (client_revoke_invitation again c id)
  unfolding client_revoke_invitation
  revoke-balanced c id = operation λ _. more _ _ (client_get_invitation-Same c id) λ i.
      more _ _ (inv_close-Same i null_role)
        λ r. more_status r _ _ (more _ _ (gets i) λ j. revoke_closed-More c j) (leave-More failure)

  decline_closed-More : (c i : Ptr) → Keeps OneMore (decline_closed again c i)
  unfolding decline_closed
  decline_closed-More c i = search (send_rules, client_remove_invitation-Same again quiet) depth 40

  pub decline-balanced : (c : Ptr) (id : ℕ) → Keeps SameOp (client_decline_invitation again c id)
  unfolding client_decline_invitation
  decline-balanced c id = operation λ _. more _ _ (client_get_invitation-Same c id) λ i.
      more _ _ (inv_close-Same i null_role)
        λ r. more_status r _ _ (more _ _ (gets i) λ j. decline_closed-More c j) (leave-More failure)

  resign_closed-More : (c i : Ptr) (t : Part) → Keeps OneMore (resign_closed again c i t)
  unfolding resign_closed
  resign_closed-More c i t = more _ _ (client_get_invitation_id-Same (some t.opponent) i) λ d.
      more _ _ (new_header-Same _ d 0 0) λ h.
        more _ _ (client_send_packet-Same t.opponent h none) λ r.
          more_status r _ _
            (more _ _ (post_player_results-Same c t.opponent t.role t.opp_role)
              λ s. more_status s _ _ (remove_both-More c t.opponent i) (leave-More failure))
            (leave-More failure)

  pub resign-balanced : (c : Ptr) (id : ℕ) → Keeps SameOp (client_resign_game again c id)
  unfolding client_resign_game
  resign-balanced c id = operation λ _. more _ _ (client_get_invitation-Same c id) λ i.
      more _ _ (part_of-Same c i) λ p. more_option p _ _ (leave-More failure) λ t.
        more _ _ (inv_close-Same i t.role) λ r.
          more_status r _ _ (more _ _ (gets i) λ j. resign_closed-More c j t) (leave-More failure)

  finish-More :
      (c : Ptr) (id : ℕ) (i g : Ptr) (t : Part) (d : Option ℕ)
      → Keeps OneMore (finish again c id i g t d)
  unfolding finish
  finish-More c id i g t d = more _ _ (load_game-Same g) λ x.
      more _ _ (new_header-Same _ d _ 0) λ h.
        more _ _ (client_send_packet-Same t.opponent h none) λ r.
          more_status r _ _
            (more _ _ (client_send_packet-Same c _ none) λ s.
              more_status s _ _
                (more _ _ (post_player_results-Same c t.opponent t.role _)
                  λ _. remove_both-More c t.opponent i)
                (leave-More failure))
            (leave-More failure)

  moved-More : (c : Ptr) (id : ℕ) (i g : Ptr) (t : Part) → Keeps OneMore (moved again c id i g t)
  unfolding moved
  moved-More c id i g t = more _ _ (load_game-Same g) λ x.
      more _ _ (client_get_invitation_id-Same (some t.opponent) i) λ d.
        more _ _ (new_header-Same _ d 0 _) λ h.
          more _ _ (client_send_packet-Same t.opponent h _) λ r.
            more_status r _ _
              (more _ _ (load_game-Same g) λ y.
                more _ _ (store_game-Same g _)
                  λ _. branch _ (leave-More success) (finish-More c id i g t d))
              (leave-More failure)

  try_move-More :
      (c : Ptr) (id : ℕ) (s : Text) (i g : Ptr) (t : Part)
      → Keeps OneMore (try_move again c id s i g t)
  unfolding try_move
  try_move-More c id s i g t = more _ _ (load_game-Same g) λ x.
      more_option _ _ _ (leave-More failure) λ m.
        more _ _ (store_game-Same g _)
          λ _. more_status _ _ _ (moved-More c id i g t) (leave-More failure)

  pub move-balanced : (c : Ptr) (id : ℕ) (s : Text) → Keeps SameOp (client_make_move again c id s)
  unfolding client_make_move
  move-balanced c id s = operation λ _. more _ _ (client_get_invitation-Same c id) λ i.
      more _ _ (inv_get_game-Same i) λ g. more_option g _ _ (leave-More failure) λ a.
        more _ _ (part_of-Same c i) λ p.
          more_option p _ _ (leave-More failure)
            λ t. more _ _ (gets i) λ j. try_move-More c id s j a t

accept_game-More : (i : Option Ptr) → Keeps OneMore (accept_game i)
unfolding accept_game
accept_game-More i = more _ _ (inv_get_game-Same i) λ g. more _ _ (inv_get_source-Same i) λ s.
    more _ _ (gets i) λ j. more _ _ (client_get_invitation_id-Same s j) λ d.
      more _ _ (inv_get_target_role-Same i) λ r. more _ _ (gets g) λ a.
        more _ _ (load_game-Same a) λ x. more _ _ (new_header-Same _ d 0 _) λ h.
          more _ _ (gets s) λ o.
            more _ _ (client_send_packet-Same o h _)
              λ t. more_status t _ _ (leave-More _) (leave-More _)

pub accept-balanced : (c : Ptr) (id : ℕ) → Keeps SameOp (client_accept_invitation c id)
unfolding client_accept_invitation
accept-balanced c id = operation λ _. more _ _ (client_get_invitation-Same c id) λ i.
    more _ _ (inv_get_target-Same i) λ t. branch _ (leave-More (failure, no_string)) (
      more _ _ (inv_accept-Same i)
        λ r. more_status r _ _ (accept_game-More i) (leave-More (failure, no_string)))
