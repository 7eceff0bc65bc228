-- ===== src/Server/Service/Guest.antt =====
-- src/server.c: a connection on which no LOGIN packet is received.
use jeux_game_server.Prelude.{
  ℕ, suc, ◌≡◌, refl, sym, ap, ◌∙◌, Bool, true, false, Option, none, some, List, [], ◌∷◌, ◌==◌,
  ==_iff, if◌then◌else◌, inl, inr, Bool-cases,
}
use mathlib.Core.Option
use jeux_game_server.Game.{Status}
use jeux_game_server.Game.Text.{Text}
use jeux_game_server.Protocol.{Header, type_code, login_pkt}
use jeux_game_server.World.Changing.{same_pointer}
use jeux_game_server.World.{
  Ptr, World, Run, ok, fault, blocked, M, pure, ◌>>=◌, and_then, Client, client_logged_out,
  load_client, store_client, new_header, send_on, update,
}
use jeux_game_server.Client.Object.{lock_client, unlock_client}
use jeux_game_server.Client.Packets.{client_send_nack}
use jeux_game_server.Client.Session.{client_logout, logout_step}
use jeux_game_server.Server.{c_string, process_login}
use jeux_game_server.Server.Service.{LoginFlag, guarded, dispatch, service_loop}

-- Nothing is changed but what goes out on connections.
pub record Idle (w w' : World) : Type 0 where
  pub players : w'.players ≡ w.players
  pub games : w'.games ≡ w.games
  pub invitations : w'.invitations ≡ w.invitations
  pub clients : (q : Ptr) → w'.clients q ≡ w.clients q
  pub client_registry : w'.client_registry ≡ w.client_registry
  pub player_registry : w'.player_registry ≡ w.player_registry
  pub semaphores : w'.semaphores ≡ w.semaphores
  pub shut : w'.shut ≡ w.shut

idle : (w : World) → Idle w w
idle w = record {
  players = refl;
  games = refl;
  invitations = refl;
  clients = λ q. refl;
  client_registry = refl;
  player_registry = refl;
  semaphores = refl;
  shut = refl;
}

Idle-then : (u v w : World) → Idle u v → Idle v w → Idle u w
Idle-then u v w a b = record {
  players = b.players ∙ a.players;
  games = b.games ∙ a.games;
  invitations = b.invitations ∙ a.invitations;
  clients = λ q. b.clients q ∙ a.clients q;
  client_registry = b.client_registry ∙ a.client_registry;
  player_registry = b.player_registry ∙ a.player_registry;
  semaphores = b.semaphores ∙ a.semaphores;
  shut = b.shut ∙ a.shut;
}

-- The call returns, and is idle.
abbrev pub IdlesIn : {A : Type 0} → World → Run A → Type 0
IdlesIn w (ok a w') = Idle w w'
IdlesIn w fault = ⊥
IdlesIn w blocked = ⊥

unlocked : (x : Client) → x.lock ≡ false → record x { lock = false } ≡ x
unlocked x l = λ i. record x { lock = sym l i }

relocked :
    (h : Ptr → Option Client) (p q : Ptr) (x : Client)
    → h p ≡ some x
    → x.lock ≡ false
    → update (update h p (some (record x { lock = true }))) p (some (record x { lock = false })) q
      ≡ h q
relocked h p q x e l = elim (Bool-cases (p == q)) [
  | inl t ↦ rw (t, ← (==_iff p q).0 t, e) (ap some (unlocked x l))
  | inr f ↦ rw f refl
]

nack-Idles :
    (w : World) (p : Ptr) (x : Client)
    → w.clients p ≡ some x
    → x.lock ≡ false
    → IdlesIn w (client_send_nack p w)
unfolding client_send_nack lock_client unlock_client load_client store_client new_header send_on
nack-Idles w p x e l =
    rw (e, l, same_pointer p, same_pointer p)
      (record {
        players = refl;
        games = refl;
        invitations = refl;
        clients = λ q. relocked w.clients p q x e l;
        client_registry = refl;
        player_registry = refl;
        semaphores = refl;
        shut = refl;
      })

-- A switch that is idle keeps the flag at 0.
abbrev Waits : World → Run (LoginFlag × Bool) → Type 0
Waits w (ok (flag, b) w') = (flag ≡ none) × Idle w w'
Waits w fault = ⊥
Waits w blocked = ⊥

guarded-after :
    (w : World) (r : Run Status) → IdlesIn w r → Waits w (and_then r λ _. pure (none, true))
guarded-after w (ok s w') e = (refl, e)
guarded-after w fault e = e
guarded-after w blocked e = e

logout-after :
    (w : World) (r : Run Status) → IdlesIn w r → Waits w (and_then r λ _. pure (none, false))
logout-after w (ok s w') e = (refl, e)
logout-after w fault e = e
logout-after w blocked e = e

record WaitsIn (w : World) (m : M (LoginFlag × Bool)) : Type 0 where
  run : Waits w (m w)

pick :
    {w : World} (b : Bool) {m n : M (LoginFlag × Bool)}
    → WaitsIn w m
    → WaitsIn w n
    → WaitsIn w (if b then m else n)
pick true k l = k
pick false k l = l

unless :
    {w : World} (b : Bool) (m : M (LoginFlag × Bool)) {n : M (LoginFlag × Bool)}
    → b ≡ false
    → WaitsIn w n
    → WaitsIn w (if b then m else n)
unless b m e k = rw e k

module _ (w : World) (p : Ptr) (x : Client) (e : w.clients p ≡ some x) where
  guarded-WaitsIn : x.lock ≡ false → (m : M Status) → WaitsIn w (guarded none p m)
  unfolding guarded
  guarded-WaitsIn l m = record { run = guarded-after w _ (nack-Idles w p x e l) }

  logout-Idles :
      (depth : ℕ) → x.logged_in ≡ client_logged_out → IdlesIn w (client_logout (suc depth) p w)
  unfolding client_logout logout_step load_client
  logout-Idles depth out = rw (e, out) (idle w)

  -- The two cases that send nothing: no more packets, and a type that the switch does not have.
  stop-WaitsIn :
      (depth : ℕ)
      → x.logged_in ≡ client_logged_out
      → WaitsIn w (client_logout (suc depth) p >>= λ _. pure (none, false))
  stop-WaitsIn depth out = record { run = logout-after w _ (logout-Idles depth out) }

  ignored-WaitsIn : WaitsIn w (pure (none, true))
  ignored-WaitsIn = record { run = (refl, idle w) }

  dispatch-WaitsIn :
      (depth : ℕ) (hdr : Header) (payload : Option Text)
      → x.lock ≡ false
      → x.logged_in ≡ client_logged_out
      → (hdr.type == type_code login_pkt) ≡ false
      → WaitsIn w (dispatch (suc depth) none p hdr payload)
  unfolding dispatch
  dispatch-WaitsIn depth hdr payload l out other =
      unless _ (process_login payload hdr p >>= λ s. pure (some s, true)) other
        (search (pick, guarded-WaitsIn, stop-WaitsIn, ignored-WaitsIn) depth 40)

-- No LOGIN packet among those that are received.
abbrev pub NoLogin : List (Header × Option Text) → Type 0
NoLogin [] = Unit {0}
NoLogin ((hdr, payload) ∷ packets) = ((hdr.type == type_code login_pkt) ≡ false) × NoLogin packets

IdlesIn-after : {A : Type 0} (w v : World) (r : Run A) → Idle w v → IdlesIn v r → IdlesIn w r
IdlesIn-after w v (ok a u) e d = Idle-then w v u e d
IdlesIn-after w v fault e d = d
IdlesIn-after w v blocked e d = d

Waits-then :
    (w : World) (r : Run (LoginFlag × Bool)) (f : LoginFlag × Bool → M (Unit {0}))
    → Waits w r
    → ((b : Bool) (w' : World) → Idle w w' → IdlesIn w' (f (none, b) w'))
    → IdlesIn w (and_then r f)
Waits-then w (ok (flag, b) w') f (e, d) k = rw e (IdlesIn-after w w' _ d (k b w' d))
Waits-then w fault f d k = d
Waits-then w blocked f d k = d

unit-after : (w : World) (r : Run Status) → IdlesIn w r → IdlesIn w (and_then r λ _. pure tt)
unit-after w (ok s w') e = e
unit-after w fault e = e
unit-after w blocked e = e

on_continue :
    (w : World) (b : Bool) (m : M (Unit {0}))
    → IdlesIn w (m w)
    → IdlesIn w ((let next : M (Unit {0}) = elim b [ true ↦ m | false ↦ pure tt ] in next) w)
on_continue w true m e = e
on_continue w false m e = idle w

-- For a client that is logged out and not locked, and a depth of nested releases of at least one:
-- whatever packets other than LOGIN are received, jeux_client_service's loop ends, and no player,
-- game, invitation, client, registry or semaphore has changed; all that it does is to send.
pub guest-Idles :
    (depth : ℕ) (p : Ptr) (packets : List (Header × Option Text)) (w : World) (x : Client)
    → w.clients p ≡ some x
    → x.lock ≡ false
    → x.logged_in ≡ client_logged_out
    → NoLogin packets
    → IdlesIn w (service_loop (suc depth) none p packets w)
unfolding service_loop
guest-Idles depth p [] w x e l out others = unit-after w _ (logout-Idles w p x e depth out)
guest-Idles depth p ((hdr, payload) ∷ packets) w x e l out others =
    Waits-then w _ _
      (dispatch-WaitsIn w p x e depth hdr (Option.map (c_string hdr.size) payload) l out
        others.0).run
      λ b w' d.
        on_continue w' b _ (guest-Idles depth p packets w' x (d.clients p ∙ e) l out others.1)
