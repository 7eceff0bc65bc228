-- ===== src/World.antt =====
-- The memory that the modules of src/ share: the objects that are allocated, the two registries,
-- the semaphores of src/client.c and what the surroundings will answer. An operation is a command
-- on it. A pointer is a number, NULL is `none`, and a freed object is `none` in its heap. An
-- operation runs alone, so a mutex that every path releases is left out; those of a client and of
-- the client registry, which some paths keep, are fields.
pub mod Keeps
pub mod Changing
use jeux_game_server.Prelude.{
  ℕ, zero, suc, ◌+◌, ◌-◌, ◌≡◌, Bool, true, false, not, ◌&&◌, ◌||◌, Option, none, some, List, [],
  ◌∷◌, ◌++◌, ltb, leb, ◌==◌, if◌then◌else◌,
}
use jeux_game_server.Prelude.Int.{ℤ}
use jeux_game_server.Game.{Role, Game, Status, success, failure}
use jeux_game_server.Game.Text.{Text}
use jeux_game_server.Protocol.{
  Write, PacketType, Header, create_header, proto_send_packet, Incoming,
}

abbrev pub Ptr : Type 0
Ptr = ℕ

-- PLAYER of src/player.c.
pub record Player : Type 0 where
  pub name : Text
  pub ref_count : ℕ
  pub rating : ℤ

-- INVITATION_STATE of include/invitation.h.
pub data InvitationState : Type 0 where
  open_state accepted_state closed_state : InvitationState

-- INVITATION of src/invitation.c.
pub record Invitation : Type 0 where
  pub state : InvitationState
  pub ref_count : ℕ
  pub source : Ptr
  pub target : Ptr
  pub game : Option Ptr
  pub source_role : Role
  pub target_role : Role

-- INVITATION_NODE of src/client.c: an ID (`none` is -1) and an invitation.
pub record InvitationNode : Type 0 where
  pub id : Option ℕ
  pub invitation : Ptr

-- CLIENT_STATE of src/client.c.
pub data ClientState : Type 0 where
  client_logged_out client_logged_in : ClientState

-- CLIENT of src/client.c. An entry of `available_ids` that is -1 is `none`.
pub record Client : Type 0 where
  pub lock : Bool
  pub fd : ℕ
  pub ref_count : ℕ
  pub player : Option Ptr
  pub logged_in : ClientState
  pub available_ids : List (Option ℕ)
  pub id_usage : ℕ
  pub current_id_size : ℕ
  pub invite_head : List InvitationNode

-- CLIENT_REGISTRY of src/client_registry.c.
pub record ClientRegistry : Type 0 where
  pub mutex : Bool
  pub sem : ℕ
  pub length : ℕ
  pub no_new : Bool
  pub clients : List (Option Ptr)
  pub login_queue : ℕ

-- PLAYER_REGISTRY of src/player_registry.c, its nodes in order.
pub record PlayerRegistry : Type 0 where
  pub nodes : List Ptr
  pub length : ℕ

-- The semaphores of src/client.c that are used.
pub record Semaphores : Type 0 where
  pub login : ℕ
  pub logout : ℕ
  pub invite : ℕ
  pub invite_op : ℕ
  pub update_elo : ℕ

-- The machine's doubles, as 64-bit patterns.
pub record FloatUnit : Type 0 where
  pub of_int : ℤ → ℕ
  pub half : ℕ
  pub add : ℕ → ℕ → ℕ
  pub sub : ℕ → ℕ → ℕ
  pub mul : ℕ → ℕ → ℕ
  pub div : ℕ → ℕ → ℕ
  pub pow : ℕ → ℕ → ℕ
  pub to_int : ℕ → ℤ

pub record World : Type 0 where
  pub players : Ptr → Option Player
  pub games : Ptr → Option Game
  pub invitations : Ptr → Option Invitation
  pub clients : Ptr → Option Client
  -- the address that the next allocation returns
  pub fresh : Ptr
  pub client_registry : ClientRegistry
  pub player_registry : PlayerRegistry
  pub semaphores : Semaphores
  pub float : FloatUnit
  -- whether the coming requests for memory, mutexes and semaphores are met; at the end they all are
  pub grants : List Bool
  pub writes : List Write
  pub clock : List (ℕ × ℕ)
  -- what went out, newest first: the descriptor and the bytes
  pub sent : List (ℕ × Text)
  -- the descriptors that shutdown(2) was called on
  pub shut : List ℕ

-- A command ends with a value, with a fault (a NULL or dangling pointer), or waits for a lock or a
-- semaphore that nobody will release.
pub data Run {ℓ} (A : Type ℓ) : Type ℓ where
  ok : A → World → Run A
  fault : Run A
  blocked : Run A

abbrev pub M : Type 0 → Type 0
M A = World → Run A

abbrev pub pure : {A : Type 0} → A → M A
pure a w = ok a w

abbrev pub and_then : {A B : Type 0} → Run A → (A → M B) → Run B
and_then (ok a w) f = f a w
and_then fault f = fault
and_then blocked f = blocked

infixl 5 ◌>>=◌ ◌>>◌
abbrev pub ◌>>=◌ : {A B : Type 0} → M A → (A → M B) → M B
◌>>=◌ m f w = and_then (m w) f

abbrev pub ◌>>◌ : {B : Type 0} → M (Unit {0}) → M B → M B
m >> k = m >>= λ _. k

abbrev pub read : {A : Type 0} → (World → A) → M A
read f w = ok (f w) w

abbrev pub write : (World → World) → M (Unit {0})
write f w = ok tt (f w)

abbrev pub fail : {A : Type 0} → M A
fail w = fault

abbrev pub block : {A : Type 0} → M A
block w = blocked

abbrev pub present : {A : Type 0} → Option A → M A
present none = fail
present (some a) = pure a

abbrev pub update {ℓ} : {A : Type ℓ} → (Ptr → Option A) → Ptr → Option A → Ptr → Option A
update h p v q = if p == q then v else h q

unfoldable pub load_player : Ptr → M Player
load_player p w = present (w.players p) w

unfoldable pub store_player : Ptr → Option Player → M (Unit {0})
store_player p x = write λ w. record w { players = update w.players p x }

unfoldable pub load_game : Ptr → M Game
load_game p w = present (w.games p) w

unfoldable pub store_game : Ptr → Option Game → M (Unit {0})
store_game p x = write λ w. record w { games = update w.games p x }

unfoldable pub load_invitation : Ptr → M Invitation
load_invitation p w = present (w.invitations p) w

unfoldable pub store_invitation : Ptr → Option Invitation → M (Unit {0})
store_invitation p x = write λ w. record w { invitations = update w.invitations p x }

unfoldable pub load_client : Ptr → M Client
load_client p w = present (w.clients p) w

unfoldable pub store_client : Ptr → Option Client → M (Unit {0})
store_client p x = write λ w. record w { clients = update w.clients p x }

-- Whether the next request for memory, a mutex or a semaphore is met.
abbrev pub next_grant : List Bool → Bool × List Bool
next_grant [] = (true, [])
next_grant (b ∷ bs) = (b, bs)

unfoldable pub granted : M Bool
granted w = ok (next_grant w.grants).0 (record w { grants = (next_grant w.grants).1 })

-- calloc of an object: its address, or NULL.
unfoldable pub calloc : M (Option Ptr)
unfolding granted
calloc = do
  given ← granted
  if given then (λ w. ok (some w.fresh) (record w { fresh = w.fresh + 1 })) else pure none

-- sem_wait on a counter that is read and written by the two functions.
unfoldable pub sem_wait : (Semaphores → ℕ) → (ℕ → Semaphores → Semaphores) → M (Unit {0})
sem_wait get put w =
    if get w.semaphores == 0
    then blocked
    else ok tt (record w { semaphores = put (get w.semaphores - 1) w.semaphores })

unfoldable pub sem_post : (Semaphores → ℕ) → (ℕ → Semaphores → Semaphores) → M (Unit {0})
sem_post get put = write λ w. record w { semaphores = put (get w.semaphores + 1) w.semaphores }

abbrev pub next_time : List (ℕ × ℕ) → (ℕ × ℕ) × List (ℕ × ℕ)
next_time [] = ((0, 0), [])
next_time (t ∷ ts) = (t, ts)

-- create_header, with the time read from the clock.
unfoldable pub new_header : PacketType → Option ℕ → ℕ → ℕ → M Header
new_header type id role size w =
    ok (create_header (next_time w.clock).0 type id role size)
      (record w { clock = (next_time w.clock).1 })

-- proto_send_packet on a descriptor.
unfoldable pub send_on : ℕ → Header → Option Text → M Status
send_on fd header payload w =
    let (status, out, rest) = proto_send_packet header payload w.writes in
    ok status (record w { writes = rest; sent = (fd, out) ∷ w.sent })
