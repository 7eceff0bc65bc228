-- ===== src/Server/Service/Schedule/Reachable.antt =====
-- src/main.c and src/server.c: what holds of the server whenever no request is being served, in
-- whatever order the connections have been accepted, served and closed.
use jeux_game_server.Prelude.{
  ℕ, suc, ◌+◌, ◌≤◌, ◌≡◌, refl, sym, ap, ◌∙◌, true, Option, none, some, List, [], ◌∷◌, ◌++◌, arith,
  length,
}
use jeux_game_server.Game.{Status}
use jeux_game_server.World.{Ptr, World, Run, ok, fault, blocked}
use jeux_game_server.World.Keeps.{Ends}
use jeux_game_server.ClientRegistry.{creg_init}
use jeux_game_server.ClientRegistry.Serving.{creg_shutdown_all-Serves}
use jeux_game_server.ClientRegistry.Membership.{add_entry}
use jeux_game_server.ClientRegistry.Membership.Registering.{
  Registering, full, shut_down, waits, entered, creg_register-Registering,
}
use jeux_game_server.ClientRegistry.Membership.Unregistering.{
  Unregistering, locked, absent, left, logout_faults, logout_blocks, creg_unregister-Unregistering,
}
use jeux_game_server.ClientRegistry.Membership.Places.{
  PlacesValid, EndsValid, places-valid, creg_init-PlacesValid, PlacesValid-InArray,
}
use jeux_game_server.ClientRegistry.Membership.Agreeing.{
  Admits, creg_register-Agreeing, creg_register-Admits, creg_unregister-Agreeing,
}
use jeux_game_server.Client.Balance.Logout.{client_logout-Same}
use jeux_game_server.Client.Serving.{AllAgree, Agreeing, Serves, kept}
use jeux_game_server.Server.Serving.{dispatch-Serves}
use jeux_game_server.Server.Service.Schedule.{
  Connection, System, Step, accepted, refused, served, hung_up, closed, shutting, Reach, start,
  later,
}

abbrev pub Busy : List Connection → Type 0
Busy [] = ⊥
Busy (c ∷ cs) = Unit {0}

-- A server between two steps.
pub record IsSound (s : System) : Type 0 where
  pub lists : AllAgree s.world
  pub places : PlacesValid s.world.client_registry
  pub served : length s.connections ≤ s.world.client_registry.length
  pub op : Busy s.connections → s.world.semaphores.invite_op ≡ 1

-- The server when main enters the accept loop.
pub record Boots (w : World) : Type 0 where
  pub registry : creg_init true true true true ≡ some w.client_registry
  pub clients : (p : Ptr) → w.clients p ≡ none

start-IsSound : (w : World) → Boots w → IsSound (record { world = w; connections = [] })
start-IsSound w b = record {
  lists = λ p c e. cc (b.clients p);
  places = creg_init-PlacesValid true true true true _ b.registry;
  served = omega arith;
  op = λ h. absurd h;
}

middle-Busy :
    (before : List Connection) (c : Connection) (after : List Connection)
    → Busy (before ++ (c ∷ after))
middle-Busy [] c after = tt
middle-Busy (d ∷ before) c after = tt

-- The number of entries across a call.
abbrev Grows : World → Run (Option Ptr) → Type 0
Grows w (ok (some p) v) = v.client_registry.length ≡ w.client_registry.length + 1
Grows w (ok none v) = w.client_registry.length ≤ v.client_registry.length
Grows w fault = Unit {0}
Grows w blocked = Unit {0}

Registering-Grows : (w : World) (r : Run (Option Ptr)) → Registering w r → Grows w r
unfolding add_entry
Registering-Grows w r (full _) = omega arith
Registering-Grows w r (shut_down _) = omega arith
Registering-Grows w r (waits _) = tt
Registering-Grows w r (entered none l n q e) = omega (arith, ap (λ x. x.length) e)
Registering-Grows w r (entered (some p) l n q e) = ap (λ x. x.length) e

abbrev Shrinks : World → Run Status → Type 0
Shrinks w (ok r v) = w.client_registry.length ≤ v.client_registry.length + 1
Shrinks w fault = Unit {0}
Shrinks w blocked = Unit {0}

Unregistering-Shrinks : (w : World) (p : Ptr) (r : Run Status) → Unregistering w p r → Shrinks w r
Unregistering-Shrinks w p r (locked _) = tt
Unregistering-Shrinks w p r (absent _) = omega arith
Unregistering-Shrinks w p r (left _ l) = omega (arith, l.length)
Unregistering-Shrinks w p r (logout_faults _) = tt
Unregistering-Shrinks w p r (logout_blocks _) = tt

-- A step that serves a request.
serving-IsSound :
    (s t : System)
    → Serves s.world t.world
    → length t.connections ≡ length s.connections
    → Busy s.connections
    → IsSound s
    → IsSound t
serving-IsSound s t (a, q) n b i = record {
  lists = a.lists i.lists;
  places = record {
    array = rw q.clients i.places.array;
    places = omega (arith, q.length, q.login_queue, i.places.places);
  };
  served = omega (arith, q.length, i.served);
  op = λ _. a.op (i.op b);
}

same_length :
    (before : List Connection) (c d : Connection) (after : List Connection)
    → length (before ++ (d ∷ after)) ≡ length (before ++ (c ∷ after))
same_length [] c d after = refl
same_length (x ∷ before) c d after = ap suc (same_length before c d after)

one_less :
    (before : List Connection) (c : Connection) (after : List Connection)
    → length (before ++ (c ∷ after)) ≡ length (before ++ after) + 1
one_less [] c after = omega arith
one_less (x ∷ before) c after = omega (arith, one_less before c after)

-- The middle of the connections takes another flag.
middle-IsSound :
    (s : System) (w : World) (before after : List Connection) (c d : Connection)
    → s.connections ≡ before ++ (c ∷ after)
    → Serves s.world w
    → IsSound s
    → IsSound (record { world = w; connections = before ++ (d ∷ after) })
middle-IsSound s w before after c d e k i =
    serving-IsSound s _ k (same_length before c d after ∙ ap length (sym e))
      (rw e (middle-Busy before c after)) i

accepted-IsSound :
    (s : System) (r : Run (Option Ptr)) (p : Ptr) (w : World) (c : Connection)
    → r ≡ ok (some p) w
    → Ends Agreeing s.world r
    → EndsValid r
    → Grows s.world r
    → Admits r
    → IsSound s
    → IsSound (record { world = w; connections = c ∷ s.connections })
accepted-IsSound s r p w c e a v g o i =
    let agreeing : Agreeing s.world w = rw e at a in
    let valid : PlacesValid w.client_registry = rw e at v in
    let grown : w.client_registry.length ≡ s.world.client_registry.length + 1 = rw e at g in
    record {
      lists = agreeing.lists i.lists;
      places = valid;
      served = omega (arith, i.served);
      op = λ _. rw e at o;
    }

refused-IsSound :
    (s : System) (r : Run (Option Ptr)) (w : World)
    → r ≡ ok none w
    → Ends Agreeing s.world r
    → EndsValid r
    → Grows s.world r
    → IsSound s
    → IsSound (record { world = w; connections = s.connections })
refused-IsSound s r w e a v g i =
    let agreeing : Agreeing s.world w = rw e at a in
    let valid : PlacesValid w.client_registry = rw e at v in
    let grown : s.world.client_registry.length ≤ w.client_registry.length = rw e at g in
    record {
      lists = agreeing.lists i.lists;
      places = valid;
      served = omega (arith, i.served);
      op = λ b. agreeing.op (i.op b);
    }

closed-IsSound :
    (s : System) (r : Run Status) (st : Status) (w : World) (before after : List Connection)
    (c : Connection)
    → s.connections ≡ before ++ (c ∷ after)
    → r ≡ ok st w
    → Ends Agreeing s.world r
    → EndsValid r
    → Shrinks s.world r
    → IsSound s
    → IsSound (record { world = w; connections = before ++ after })
closed-IsSound s r st w before after c m e a v g i =
    let agreeing : Agreeing s.world w = rw e at a in
    let valid : PlacesValid w.client_registry = rw e at v in
    let shrunk : s.world.client_registry.length ≤ w.client_registry.length + 1 = rw e at g in
    record {
      lists = agreeing.lists i.lists;
      places = valid;
      served = omega (arith, i.served, one_less before c after, ap length m);
      op = λ _. agreeing.op (i.op (rw m (middle-Busy before c after)));
    }

ended :
    (s : World) (w : World) {A : Type 0} (r : Run A) (a : A)
    → r ≡ ok a w
    → Ends Serves s r
    → Serves s w
ended s w r a e k = rw e at k

Step-IsSound : (depth : ℕ) (s t : System) → Step depth s t → IsSound s → IsSound t
Step-IsSound depth s t (accepted fd p w e d) i = rw d (
    accepted-IsSound s _ p w _ e ((creg_register-Agreeing fd).run s.world)
      ((places-valid depth s.world i.places).0 fd)
      (Registering-Grows s.world _ (creg_register-Registering s.world fd))
      (creg_register-Admits fd s.world) i)
Step-IsSound depth s t (refused fd w e d) i = rw d (
    refused-IsSound s _ w e ((creg_register-Agreeing fd).run s.world)
      ((places-valid depth s.world i.places).0 fd)
      (Registering-Grows s.world _ (creg_register-Registering s.world fd)) i)
Step-IsSound depth s t (served before after p flag flag' cont hdr payload w m e d) i = rw d (
    middle-IsSound s w before after _ _ m
      (ended s.world w _ _ e ((dispatch-Serves depth flag p hdr _).run s.world)) i)
Step-IsSound depth s t (hung_up before after p flag r w m e d) i = rw d (
    middle-IsSound s w before after _ _ m
      (ended s.world w _ _ e ((kept (client_logout-Same depth p)).run s.world)) i)
Step-IsSound depth s t (closed before after p flag r w m e d) i = rw d (
    closed-IsSound s _ r w before after _ m e ((creg_unregister-Agreeing depth p).run s.world)
      ((places-valid depth s.world i.places).1 p)
      (Unregistering-Shrinks s.world p _
        (creg_unregister-Unregistering depth s.world p (PlacesValid-InArray _ i.places)))
      i)
Step-IsSound depth s t (shutting w e d) i =
    rw d (shutting-IsSound (ended s.world w _ _ e (creg_shutdown_all-Serves.run s.world)))
  where
    shutting-IsSound :
        Serves s.world w → IsSound (record { world = w; connections = s.connections })
    shutting-IsSound (a, q) = record {
      lists = a.lists i.lists;
      places = record {
        array = rw q.clients i.places.array;
        places = omega (arith, q.length, q.login_queue, i.places.places);
      };
      served = omega (arith, q.length, i.served);
      op = λ b. a.op (i.op b);
    }

-- From the registry that creg_init makes and no clients, in whatever order connections are accepted
-- or refused, their requests served, connections hung up and closed and a shutdown begun, a request
-- at a time: at every moment between two requests the array of IDs of each client is in order, and
-- an ID is taken in it exactly when one invitation of its list has it; every place of the registry
-- is taken by an entry or offered by the login queue; at most as many connections are served as the
-- registry has entries, and at most 64; and while one is served, CLIENT_INVITE_OP_SEM is free.
pub Reach-IsSound :
    (depth : ℕ) (w : World) (s : System)
    → Boots w
    → Reach depth w s
    → IsSound s × (length s.connections ≤ 64)
Reach-IsSound depth w s b r = let i = sound s r in (i, omega (arith, i.served, i.places.places))
  where
    sound : (t : System) → Reach depth w t → IsSound t
    sound t start = start-IsSound w b
    sound t (later r step) = Step-IsSound depth _ t step (sound _ r)
