-- ===== src/Server/Service/Schedule.antt =====
-- src/main.c and src/server.c: the threads of the server, of which each serves one connection.
-- Their packets are served in any order, each request from start to end. A request that would
-- wait is not begun before what it waits for is there.
pub mod Reachable
use jeux_game_server.Prelude.{ℕ, ◌≡◌, Bool, true, false, Option, none, some, List, [], ◌∷◌, ◌++◌}
use mathlib.Core.Option
use jeux_game_server.Game.{Status}
use jeux_game_server.Game.Text.{Text}
use jeux_game_server.Protocol.{Header}
use jeux_game_server.World.{Ptr, World, ok}
use jeux_game_server.ClientRegistry.{creg_shutdown_all}
use jeux_game_server.ClientRegistry.Membership.{creg_register, creg_unregister}
use jeux_game_server.Client.Session.{client_logout}
use jeux_game_server.Server.{c_string}
use jeux_game_server.Server.Service.{LoginFlag, dispatch}

-- A thread of jeux_client_service: its client, `process_login_packet` and `cont`.
pub record Connection : Type 0 where
  pub client : Ptr
  pub flag : LoginFlag
  pub cont : Bool

pub record System : Type 0 where
  pub world : World
  pub connections : List Connection

-- One step of the server: of the accept loop with the start of a thread, or of one of the threads.
pub data Step (depth : ℕ) (s t : System) : Type 0 where
  accepted :
      (fd : ℕ) (p : Ptr) (w : World)
      → creg_register fd s.world ≡ ok (some p) w
      → t ≡ record {
        world = w;
        connections = record { client = p; flag = none; cont = true } ∷ s.connections;
      }
      → Step depth s t
  refused :
      (fd : ℕ) (w : World)
      → creg_register fd s.world ≡ ok none w
      → t ≡ record { world = w; connections = s.connections }
      → Step depth s t
  served :
      (before after : List Connection) (p : Ptr) (flag flag' : LoginFlag) (cont : Bool)
      (hdr : Header) (payload : Option Text) (w : World)
      → s.connections ≡ before ++ (record { client = p; flag = flag; cont = true } ∷ after)
      → dispatch depth flag p hdr (Option.map (c_string hdr.size) payload) s.world
        ≡ ok (flag', cont) w
      → t ≡ record {
        world = w;
        connections = before ++ (record { client = p; flag = flag'; cont = cont } ∷ after);
      }
      → Step depth s t
  -- proto_recv_packet returns -1
  hung_up :
      (before after : List Connection) (p : Ptr) (flag : LoginFlag) (r : Status) (w : World)
      → s.connections ≡ before ++ (record { client = p; flag = flag; cont = true } ∷ after)
      → client_logout depth p s.world ≡ ok r w
      → t ≡ record {
        world = w;
        connections = before ++ (record { client = p; flag = flag; cont = false } ∷ after);
      }
      → Step depth s t
  closed :
      (before after : List Connection) (p : Ptr) (flag : LoginFlag) (r : Status) (w : World)
      → s.connections ≡ before ++ (record { client = p; flag = flag; cont = false } ∷ after)
      → creg_unregister depth (some p) s.world ≡ ok r w
      → t ≡ record { world = w; connections = before ++ after }
      → Step depth s t
  -- terminate, up to the wait for the registry to be empty
  shutting :
      (w : World)
      → creg_shutdown_all s.world ≡ ok tt w
      → t ≡ record { world = w; connections = s.connections }
      → Step depth s t

-- The systems that a server reaches from a world `w`.
pub data Reach (depth : ℕ) (w : World) : System → Type 0 where
  start : Reach depth w (record { world = w; connections = [] })
  later : {s t : System} → Reach depth w s → Step depth s t → Reach depth w t
