-- ===== src/Client/Balance/Locks.antt =====
-- src/client.c and src/invitation.c: locks, references and sending leave the semaphore alone.
use jeux_game_server.Prelude.{true, inl, inr, refl, Option, none, some, Option-cases, Bool-cases}
use jeux_game_server.Game.{Game, game_create}
use jeux_game_server.Game.Text.{Text}
use jeux_game_server.Protocol.{Header}
use jeux_game_server.World.{Ptr, load_client, store_client}
use jeux_game_server.World.Keeps.{Keeps}
use jeux_game_server.Player.{player_get_name}
use jeux_game_server.Client.Object.{lock_client, unlock_client, client_ref}
use jeux_game_server.Client.Packets.{client_send_packet}
use jeux_game_server.Invitation.{place_game, new_game, unref_game}
use jeux_game_server.Client.Balance.{
  same_rules, on_client_state, on_invitation_state, load_client-Same, change-Same, change_last-Same,
  load_invitation-Same, store_closed-Same, drop_count-Same, on_option, done, then_, calloc-Same,
  granted-Same, sem_wait-Same, sem_post-Same,
}
use jeux_game_server.Client.Outside.{SameOp, stored_client}
use jeux_game_server.Client.Lists.{Moves-fields}

pub player_get_name-Same : (p : Ptr) → Keeps SameOp (player_get_name p)
unfolding player_get_name
player_get_name-Same p = search same_rules depth 20

pub lock_client-Same : (p : Ptr) → Keeps SameOp (lock_client p)
unfolding lock_client load_client store_client
lock_client-Same p = record {
  run = λ w. elim (Option-cases (w.clients p)) [
    | inl e ↦ rw e tt
    | inr (c, e) ↦ elim (Bool-cases c.lock) [
      | inl l ↦ rw (e, l) tt
      | inr l ↦ rw (e, l) (stored_client w p _ (rw e (Moves-fields c _ refl refl refl refl)))
    ]
  ];
}

pub unlock_client-Same : (p : Ptr) → Keeps SameOp (unlock_client p)
unfolding unlock_client
unlock_client-Same p = change_last-Same p _ λ c. Moves-fields c _ refl refl refl refl

pub ruleset lock_rules = (same_rules, lock_client-Same, unlock_client-Same)

pub client_ref-Same : (p : Ptr) → Keeps SameOp (client_ref p)
unfolding client_ref
client_ref-Same p = then_ _ _ (lock_client-Same p) λ _.
    change-Same p _ _ (λ c. Moves-fields c _ refl refl refl refl)
      λ c. then_ _ _ (unlock_client-Same p) λ _. done p

pub client_send_packet-Same :
    (p : Ptr) (h : Header) (s : Option Text) → Keeps SameOp (client_send_packet p h s)
unfolding client_send_packet
client_send_packet-Same p h s = search lock_rules depth 20

place_game-Same : (p : Ptr) (g : Option Game) → Keeps SameOp (place_game p g)
unfolding place_game
place_game-Same p none = done none
place_game-Same p (some g) = search same_rules depth 20

pub new_game-Same : Keeps SameOp new_game
unfolding new_game
new_game-Same = then_ _ _ calloc-Same (elim [
  | none ↦ done none
  | some p ↦ then_ _ _ granted-Same λ m. place_game-Same p (game_create true m)
])

pub unref_game-Same : (p : Ptr) → Keeps SameOp (unref_game p)
unfolding unref_game
unref_game-Same p = search same_rules depth 20
