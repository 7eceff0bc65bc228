-- ===== src/Main.antt =====
-- src/main.c and src/option_processing.c: the command line, the signals, the accept loop and the
-- shutdown. A connection's thread is a run of jeux_client_service; here each connection is served
-- before the next is taken.
pub mod Options
pub mod Shutting
use jeux_game_server.Prelude.{
  ℕ, ◌-◌, ◌%◌, ◌^◌, ltb, Bool, true, false, not, ◌&&◌, ◌||◌, Option, none, some, List, [], ◌∷◌,
  ◌==◌, if◌then◌else◌,
}
use jeux_game_server.Prelude.Int.{ℤ, pos, negsuc}
use jeux_game_server.Protocol.{Header}
use jeux_game_server.Game.Text.{Text, atoi}
use jeux_game_server.World.{
  ClientRegistry, PlayerRegistry, M, pure, ◌>>=◌, ◌>>◌, fail, write, granted,
}
use jeux_game_server.PlayerRegistry.{preg_init, preg_fini}
use jeux_game_server.ClientRegistry.{creg_init, creg_shutdown_all, creg_wait_for_empty}
use jeux_game_server.Server.Service.{jeux_client_service}

-- A result of getopt(argc, argv, "p"), and argv[optind] after it: `none` is NULL.
pub record Opt : Type 0 where
  pub opt : ℕ
  pub argument : Option Text

-- How option_processor ends: with 0 and PORT set, with 1, or by strtol(NULL).
pub data Processed : Type 0 where
  port_given : ℤ → Processed
  usage : Processed
  crash : Processed

-- strtol(s, &ptr, 10), which stops at the ends of the range of a long.
abbrev pub to_long : ℤ → ℤ
to_long (pos n) = if ltb n (2 ^ 63) then pos n else pos (2 ^ 63 - 1)
to_long (negsuc n) = if ltb n (2 ^ 63) then negsuc n else negsuc (2 ^ 63 - 1)

-- A long that is stored in an int: its low 32 bits, of which the highest is the sign.
abbrev pub signed32 : ℕ → ℤ
signed32 n = if ltb n (2 ^ 31) then pos n else negsuc (2 ^ 32 - 1 - n)

abbrev pub to_int : ℤ → ℤ
to_int (pos n) = signed32 (n % 2 ^ 32)
to_int (negsuc n) = signed32 (2 ^ 32 - 1 - n % 2 ^ 32)

-- PORT = strtol(s, &ptr, 10)
unfoldable pub port_number : Text → ℤ
port_number s = to_int (to_long (atoi s))

-- The loop over the options: the first argument is PORT once PORT_OPTION is set.
unfoldable pub option_loop : Option ℤ → List Opt → Processed
option_loop none [] = usage
option_loop (some port) [] = port_given port
option_loop port (o ∷ rest) = elim (o.opt == b'p') [
  | false ↦ usage
  | true ↦ elim o.argument [ none ↦ crash | some s ↦ option_loop (some (port_number s)) rest ]
]

unfoldable pub option_processor : List Opt → Processed
unfolding option_loop
option_processor opts = option_loop none opts

pub data Signal : Type 0 where
  sighup sigint other_signal : Signal

-- The handler's effect on the bit HANDLE_SIGHUP of signal_received; `debug` is the macro DEBUG.
unfoldable pub sighup_handler : (debug : Bool) → Bool → Signal → Bool
sighup_handler debug received sighup = true
sighup_handler debug received sigint = received || debug
sighup_handler debug received other_signal = received

-- The handler at each of the signals in turn.
unfoldable pub receive : (debug : Bool) → Bool → List Signal → Bool
unfolding sighup_handler
receive debug received [] = received
receive debug received (s ∷ signals) = receive debug (sighup_handler debug received s) signals

-- sigaction for SIGHUP and, with DEBUG, SIGINT, and sigaddset for both: false where one of them
-- fails, and the program exits.
unfoldable pub setup_signal_handler : (debug : Bool) → M Bool
setup_signal_handler debug = do
  action ← granted
  if not action then pure false else do
    debug_action ← if debug then granted else pure true
    if not debug_action then pure false else do
      added ← granted
      if not added then pure false else if debug then granted else pure true

pub data ExitStatus : Type 0 where
  exit_success exit_failure : ExitStatus

-- How a run of main ends, or that it waits in accept(2). Where a registry could not be made, main
-- goes on with NULL, which is not modelled further.
pub data Outcome : Type 0 where
  exited : ExitStatus → Outcome
  accepting : Outcome
  null_registry : Outcome

-- creg_fini only gives the registry's memory back.
unfoldable pub terminate : ExitStatus → M Outcome
terminate status = do creg_shutdown_all; creg_wait_for_empty; preg_fini; pure (exited status)

-- A return of Accept: a connection with the packets that it sends, and the signals that have been
-- handled since the last return. An accept(2) that fails with no signal handled, whose -1 is
-- passed on as a descriptor, is left out.
pub record Accepted : Type 0 where
  pub connfd : ℕ
  pub packets : List (Header × Option Text)
  pub signals : List Signal

-- while (cont_running). The memory for connfd is used without a test.
unfoldable pub accept_loop : (debug : Bool) (depth : ℕ) → Bool → List Accepted → M Outcome
unfolding receive
accept_loop debug depth received [] = pure accepting
accept_loop debug depth received (a ∷ rest) = do
  memory ← granted
  if not memory then fail else elim (receive debug received a.signals) [
    | true ↦ terminate exit_success
    | false ↦ do
      started ← granted
      if not started
          then pure (exited exit_failure)
          else do jeux_client_service depth a.connfd a.packets; accept_loop debug depth false rest
  ]

-- creg_init, where each request is made once those before it are met.
unfoldable pub make_registry : M (Option ClientRegistry)
make_registry = do
  c ← granted
  m ← if c then granted else pure false
  s ← if m then granted else pure false
  q ← if s then granted else pure false
  pure (creg_init c m s q)

-- main once the port is known. Open_listenfd exits with 0 where it fails.
unfoldable pub start_server : (debug : Bool) (depth : ℕ) → List Accepted → M Outcome
unfolding setup_signal_handler make_registry accept_loop
start_server debug depth accepts = do
  ready ← setup_signal_handler debug
  if not ready then pure (exited exit_failure) else do
    clients ← make_registry
    players ← granted
    listening ← granted
    if not listening then pure (exited exit_success) else elim clients [
      | none ↦ pure null_registry
      | some r ↦ elim (preg_init players) [
        | none ↦ pure null_registry
        | some q ↦ do
          write λ w. record w { client_registry = r; player_registry = q }
          accept_loop debug depth false accepts
      ]
    ]

unfoldable pub main : (debug : Bool) (depth : ℕ) → List Opt → List Accepted → M Outcome
unfolding option_processor start_server
main debug depth opts accepts = elim (option_processor opts) [
  | usage ↦ pure (exited exit_failure)
  | crash ↦ fail
  | port_given port ↦ start_server debug depth accepts
]
