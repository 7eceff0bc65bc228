-- ===== src/Lib.antt =====
-- A model of the Jeux game server, which lets clients that connect over TCP log in as players,
-- invite each other and play tic-tac-toe, with theorems about it.
--
-- The parts of the program and their files here (the paths of the program are from its root):
--
-- - src/game.c, include/game.h: Game (state and rules), Game/Text (the text of a position and of a
--   move). Game/Lines, Game/Verdict, Game/Turns and Game/Text/RoundTrip hold the proofs.
-- - src/protocol.c, src/includeme.c, include/protocol.h: Protocol, with Protocol/Send and
--   Protocol/Receive for the proofs.
-- - The objects on the heap, the two registries, the semaphores and the surroundings: World. A
--   pointer is a number, and a field of the record World is the heap of one type of object. An
--   operation is a command M A = World → Run A, written with do, which ends with a value, with a
--   fault (a NULL or dangling pointer) or blocked. World/Keeps is the logic of what commands keep.
--   World/Changing is about heaps that differ in one object.
-- - src/player.c: Player. src/player_registry.c: PlayerRegistry, with PlayerRegistry/Search,
--   PlayerRegistry/Adding and PlayerRegistry/Names for the proofs.
-- - src/invitation.c: Invitation, with Invitation/States for the proofs.
-- - src/client.c: Client/Object (creation and reference count), Client/Packets (sending),
--   Client/Ids (get_available_id and purge_id), Client/Invites (the list of invitations),
--   Client/Offers (make, revoke, decline, accept), Client/Play (post_player_results, resign, move),
--   Client/Session (login and logout). The proofs:
--   - Client/Balance and its children: the semaphores, closed invitations, and what the operations
--     leave alone (Client/Outside).
--   - Client/Packets/Going: what a packet that goes out says. Client/Ids/Entries, Allot, Giving,
--     Restoring, Lowest and Least: the array of IDs. Client/Lists and its children: the list and
--     the array of IDs together. Client/Invites/Adding and Removing: one invitation in one list.
--   - Client/Offers/Creating, Telling, Offering and Making: how the making of an invitation ends.
--     Client/Offers/Touching, Declining and Losing: declining it. Client/Offers/Accepting: accepting
--     it. Client/Offers/Stuck: revoking it where the packet cannot be sent. Client/Offers/Undoing:
--     making and declining in a row.
--   - Client/Session/Searching and Login: how a login ends, with ClientRegistry/Players for the
--     reference counts meanwhile. Client/Session/Relogin: a second login, and what follows it.
-- - src/client_registry.c: ClientRegistry and ClientRegistry/Membership (register and unregister),
--   with Entries, Registering, Entering, Unregistering and Places below it, and
--   ClientRegistry/Stale (creg_wait_for_empty), for the proofs.
-- - src/server.c: Server (one handler per request) and Server/Service (the loop of a connection),
--   with Server/Printing, Server/Users and Server/Service/Guest for the proofs. A line of the answer
--   to USERS that overflows its buffer is a fault.
--   Server/Service/Schedule is the server with many connections, as a step relation;
--   Client/Serving, ClientRegistry/Serving, Server/Serving and ClientRegistry/Membership/Agreeing
--   are about what each step keeps, and Server/Service/Schedule/Reachable about the systems that
--   are reached.
-- - src/main.c, src/option_processing.c: Main (the command line, signals, the accept loop and
--   terminate), with Main/Options and Main/Shutting for the proofs.
-- - Examples: worlds, packets and objects, with the theorems at them; Game/Tests does it for games.
--
-- The handlers call the operations of Client, which call Invitation and Game and send packets
-- through Protocol. A client is freed by client_unref, which logs it out first; client_logout calls
-- the operations, which may free clients in turn. This recursion is broken by an argument `again`,
-- and client_logout takes the depth to which it may nest; a call that nests deeper is a fault.
--
-- Bounds: write_all and read_all take the number of bytes that are left as fuel, which is enough
-- since a round that goes on moves at least one byte. The search for a registered client and the
-- shift in the registry take the number of rounds of the loop. Numbers of the program that fit an
-- int are natural numbers or, for ratings, integers; the fields of a header are cut to their
-- widths, and PORT to an int.
--
-- What the surroundings do is an input: the bytes that write(2) takes and read(2) delivers, the
-- clock, whether a request for memory, a mutex or a semaphore is met, and the arithmetic of
-- doubles, a record of functions. Where such a list ends, requests are met, the clock shows zero,
-- and writes fail.
--
-- Not modelled: threads that interleave within an operation (an operation runs from start to end,
-- and a wait that cannot return is `blocked`), mutexes that every path releases, sockets, getopt,
-- what main does with a registry that is NULL, log output, and src/csapp.c, a textbook library.

pub mod Prelude
pub mod Game
pub mod Protocol
pub mod World
pub mod Player
pub mod PlayerRegistry
pub mod Client
pub mod Invitation
pub mod ClientRegistry
pub mod Server
pub mod Main
pub mod Examples
