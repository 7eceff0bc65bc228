-- ===== src/Client/Balance.antt =====
-- src/client.c: the semaphore CLIENT_INVITE_OP_SEM across every operation that waits on it. Here:
-- the commands that leave it alone.
pub mod Locks
pub mod Stored
pub mod Given
pub mod Removing
pub mod Parts
pub mod Operations
pub mod Logout
pub mod Closed
pub mod Agreement
use jeux_game_server.Prelude.{
  inl, inr, ℕ, zero, suc, ◌+◌, ◌-◌, ◌≤◌, ◌≡◌, refl, sym, ap, ◌∙◌, Bool, true, false, Option, none,
  some, List, [], ◌∷◌, ◌++◌, arith, if◌then◌else◌, not, ◌==◌, leb, Option-cases,
}
use mathlib.Core.List.{append_assoc}
use jeux_game_server.Game.{Role, Status, success, failure, Game}
use jeux_game_server.World.{
  Ptr, World, Run, ok, blocked, next_grant, ClientState, client_logged_in, client_logged_out,
  InvitationState, open_state, accepted_state, closed_state, M, pure, ◌>>=◌, ◌>>◌, and_then, read,
  write, fail, block, present, Semaphores, Player, Client, Invitation, load_player, store_player,
  load_game, store_game, load_invitation, store_invitation, load_client, store_client, granted,
  calloc, sem_wait, sem_post, new_header, send_on,
}
use jeux_game_server.World.Keeps.{Keeps, Ends, Ends-after, Composes, bind, branch, faults, blocks}
use jeux_game_server.Protocol.{PacketType, Header}
use jeux_game_server.Game.Text.{Text}
use jeux_game_server.Player.{
  player_ref, player_unref, player_get_name, player_post_result, drop_count,
}
use jeux_game_server.Client.Lists.{Moves, MovesAt}
use jeux_game_server.Client.Outside.{
  stored, stored_client, lists, Outside, outside, Outside-then, SameOp, OneMore, quiet, same_then,
  same_more,
}

pub then_ :
    {A B : Type 0} (m : M A) (f : A → M B)
    → Keeps SameOp m
    → ((a : A) → Keeps SameOp (f a))
    → Keeps SameOp (m >>= f)
then_ m f km kf = bind same_then km kf

pub done : {A : Type 0} (a : A) → Keeps SameOp (pure a)
done a = record { run = λ w. (refl, outside, lists w) }

pub reads : {A : Type 0} (f : World → A) → Keeps SameOp (read f)
reads f = record { run = λ w. (refl, outside, lists w) }

pub gets : {A : Type 0} (o : Option A) → Keeps SameOp (present o)
gets none = faults
gets (some a) = done a

pub load_player-Same : (p : Ptr) → Keeps SameOp (load_player p)
unfolding load_player
load_player-Same p = record { run = λ w. (gets (w.players p)).run w }

pub store_player-Same : (p : Ptr) (x : Option Player) → Keeps SameOp (store_player p x)
unfolding store_player
store_player-Same p x = record { run = λ w. quiet refl refl refl refl refl refl refl refl }

pub load_game-Same : (p : Ptr) → Keeps SameOp (load_game p)
unfolding load_game
load_game-Same p = record { run = λ w. (gets (w.games p)).run w }

pub store_game-Same : (p : Ptr) (x : Option Game) → Keeps SameOp (store_game p x)
unfolding store_game
store_game-Same p x = record { run = λ w. quiet refl refl refl refl refl refl refl refl }

pub load_invitation-Same : (p : Ptr) → Keeps SameOp (load_invitation p)
unfolding load_invitation
load_invitation-Same p = record { run = λ w. (gets (w.invitations p)).run w }

pub store_closed-Same :
    (p : Ptr) (i : Invitation)
    → Keeps SameOp (store_invitation p (some (record i { state = closed_state })))
unfolding store_invitation
store_closed-Same p i = record {
  run = λ w. stored w p _ λ h d. inr (record i { state = closed_state }, refl, refl);
}

pub store_none-Same : (p : Ptr) → Keeps SameOp (store_invitation p none)
unfolding store_invitation
store_none-Same p = record { run = λ w. stored w p none λ h d. inl refl }

pub load_client-Same : (p : Ptr) → Keeps SameOp (load_client p)
unfolding load_client
load_client-Same p = record { run = λ w. (gets (w.clients p)).run w }

-- Freeing a client.
pub free_client-Same : (p : Ptr) → Keeps SameOp (store_client p none)
unfolding store_client
free_client-Same p = record { run = λ w. stored_client w p none (dropped (w.clients p)) }
  where
    dropped : (o : Option Client) → MovesAt o none
    dropped none = refl
    dropped (some c) = tt

-- A change of a client, and what follows it.
pub change-Same :
    {B : Type 0} (p : Ptr) (f : Client → Client) (k : Client → M B)
    → ((c : Client) → Moves c (f c))
    → ((c : Client) → Keeps SameOp (k c))
    → Keeps SameOp (load_client p >>= λ c. store_client p (some (f c)) >> k c)
unfolding load_client store_client
change-Same p f k moves kk = record {
  run = λ w. elim (Option-cases (w.clients p)) [
    | inl e ↦ rw e tt
    | inr (c, e) ↦ rw e (
        Ends-after SameOp SameOp SameOp w _ (k c _) same_then
          (stored_client w p (some (f c)) (rw e (moves c))) ((kk c).run _))
  ];
}

pub change_last-Same :
    (p : Ptr) (f : Client → Client)
    → ((c : Client) → Moves c (f c))
    → Keeps SameOp (load_client p >>= λ c. store_client p (some (f c)))
unfolding load_client store_client
change_last-Same p f moves = record {
  run = λ w. elim (Option-cases (w.clients p)) [
    | inl e ↦ rw e tt
    | inr (c, e) ↦ rw e (stored_client w p (some (f c)) (rw e (moves c)))
  ];
}

pub granted-Same : Keeps SameOp granted
unfolding granted
granted-Same = record { run = λ w. quiet refl refl refl refl refl refl refl refl }

pub calloc-Same : Keeps SameOp calloc
unfolding calloc granted
calloc-Same = record { run = λ w. one (next_grant w.grants).0 w }
  where
    one :
        (b : Bool) (w : World)
        → Ends SameOp w (
            (if b then (λ v. ok (some v.fresh) (record v { fresh = v.fresh + 1 })) else pure none)
              (record w { grants = (next_grant w.grants).1 }))
    one true w = (
      refl,
      record {
        client_registry = refl;
        player_registry = refl;
        login = refl;
        shut = refl;
        fresh = omega arith;
        sent = ([], refl);
        dead = λ p h d. d;
      },
      lists w,
    )
    one false w = quiet refl refl refl refl refl refl refl refl

pub new_header-Same :
    (t : PacketType) (id : Option ℕ) (role size : ℕ) → Keeps SameOp (new_header t id role size)
unfolding new_header
new_header-Same t id role size = record { run = λ w. quiet refl refl refl refl refl refl refl refl }

pub send_on-Same :
    (fd : ℕ) (h : Header) (payload : Option Text) → Keeps SameOp (send_on fd h payload)
unfolding send_on
send_on-Same fd h payload = record {
  run = λ w. (
    refl,
    record {
      client_registry = refl;
      player_registry = refl;
      login = refl;
      shut = refl;
      fresh = omega arith;
      sent = (_ ∷ [], refl);
      dead = λ p h d. d;
    },
    lists w,
  );
}

pub Outside-semaphores :
    (w : World) (s : Semaphores)
    → s.login ≡ w.semaphores.login
    → Outside w (record w { semaphores = s })
Outside-semaphores w s e = record {
  client_registry = refl;
  player_registry = refl;
  login = e;
  shut = refl;
  fresh = omega arith;
  sent = ([], refl);
  dead = λ p h d. d;
}

other_semaphore :
    (w : World) (s : Semaphores)
    → (s.invite_op ≡ w.semaphores.invite_op) × (s.login ≡ w.semaphores.login)
    → SameOp w (record w { semaphores = s })
other_semaphore w s (e, d) = (e, Outside-semaphores w s d, lists w)

wait_end : (b : Bool) (w w' : World) → SameOp w w' → Ends SameOp w (if b then blocked else ok tt w')
wait_end true w w' e = tt
wait_end false w w' e = e

-- The other semaphores of the module.
pub sem_wait-Same :
    (get : Semaphores → ℕ) (put : ℕ → Semaphores → Semaphores)
    → ((n : ℕ) (s : Semaphores) → ((put n s).invite_op ≡ s.invite_op) × ((put n s).login ≡ s.login))
    → Keeps SameOp (sem_wait get put)
unfolding sem_wait
sem_wait-Same get put h = record {
  run = λ w. wait_end _ w _ (other_semaphore w _ (h _ w.semaphores));
}

pub sem_post-Same :
    (get : Semaphores → ℕ) (put : ℕ → Semaphores → Semaphores)
    → ((n : ℕ) (s : Semaphores) → ((put n s).invite_op ≡ s.invite_op) × ((put n s).login ≡ s.login))
    → Keeps SameOp (sem_post get put)
unfolding sem_post
sem_post-Same get put h = record { run = λ w. other_semaphore w _ (h _ w.semaphores) }

pub drop_count-Same : (n : ℕ) → Keeps SameOp (drop_count n)
drop_count-Same zero = faults
drop_count-Same (suc n) = done n

pub ruleset basic_rules = (
  then_, done, reads, gets, load_player-Same, store_player-Same, load_game-Same, store_game-Same,
  load_invitation-Same, store_closed-Same, store_none-Same, load_client-Same, free_client-Same,
  granted-Same, calloc-Same, new_header-Same, send_on-Same, drop_count-Same, branch, faults, blocks,
)

pub player_ref-Same : (p : Ptr) → Keeps SameOp (player_ref p)
unfolding player_ref
player_ref-Same p = search basic_rules depth 20

pub player_unref-Same : (p : Ptr) → Keeps SameOp (player_unref p)
unfolding player_unref
player_unref-Same p = search basic_rules depth 20

pub on_option :
    {A B : Type 0} (o : Option A) (m : M B) (f : A → M B)
    → Keeps SameOp m
    → ((a : A) → Keeps SameOp (f a))
    → Keeps SameOp (elim o [ none ↦ m | some a ↦ f a ])
on_option none m f km kf = km
on_option (some a) m f km kf = kf a

pub on_status :
    {B : Type 0} (s : Status) (m n : M B)
    → Keeps SameOp m
    → Keeps SameOp n
    → Keeps SameOp (elim s [ success ↦ m | failure ↦ n ])
on_status success m n km kn = km
on_status failure m n km kn = kn

pub on_client_state :
    {B : Type 0} (s : ClientState) (m n : M B)
    → Keeps SameOp m
    → Keeps SameOp n
    → Keeps SameOp (elim s [ client_logged_out ↦ m | client_logged_in ↦ n ])
on_client_state client_logged_out m n km kn = km
on_client_state client_logged_in m n km kn = kn

pub on_invitation_state :
    {B : Type 0} (s : InvitationState) (m n o : M B)
    → Keeps SameOp m
    → Keeps SameOp n
    → Keeps SameOp o
    → Keeps SameOp (elim s [ open_state ↦ m | accepted_state ↦ n | closed_state ↦ o ])
on_invitation_state open_state m n o km kn ko = km
on_invitation_state accepted_state m n o km kn ko = kn
on_invitation_state closed_state m n o km kn ko = ko

pub ruleset same_rules = (
  basic_rules, on_option, on_status, on_client_state, on_invitation_state, player_ref-Same,
  player_unref-Same,
)
