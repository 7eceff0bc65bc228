-- ===== src/ClientRegistry/Membership/Agreeing.antt =====
-- src/client_registry.c: what registering and unregistering keep of the clients and the semaphores.
use jeux_game_server.Prelude.{
  ℕ, ◌+◌, ◌-◌, ◌≡◌, refl, ◌⊎◌, inl, inr, Bool, true, false, Option, none, some, List, [], ◌∷◌, ◌==◌,
  leb, if◌then◌else◌, Bool-cases,
}
use jeux_game_server.Game.{success, failure}
use jeux_game_server.World.{
  Ptr, Client, ClientRegistry, Semaphores, World, Run, ok, fault, blocked, M, pure, ◌>>=◌, ◌>>◌,
  and_then, write, next_grant, store_client, granted,
}
use jeux_game_server.World.Keeps.{Keeps, Ends, bind, weaken, branch, blocks}
use jeux_game_server.Client.Object.{sem_inits, init_semaphores, initial_client, client_create}
use jeux_game_server.Client.Session.{client_logout}
use jeux_game_server.Client.Lists.Lookup.{Agrees, initial_client-Agrees}
use jeux_game_server.Client.Balance.{calloc-Same, granted-Same}
use jeux_game_server.Client.Balance.Locks.{client_ref-Same}
use jeux_game_server.Client.Balance.Parts.{client_unref-Same}
use jeux_game_server.Client.Balance.Logout.{client_logout-Same}
use jeux_game_server.Client.Serving.{Serves, Agreeing, Agreeing-then, kept, serve_done, serve_read}
use jeux_game_server.ClientRegistry.{
  max_clients, set_registry, get_registry, lock_registry, unlock_registry,
}
use jeux_game_server.ClientRegistry.Serving.{lock_registry-Serves, unlock_registry-Serves}
use jeux_game_server.ClientRegistry.Membership.Registering.{created}
use jeux_game_server.ClientRegistry.Membership.{
  wait_login_queue, add_entry, creg_register, find_entry, unregister_at, creg_unregister,
}

agree : {A : Type 0} {m : M A} → Keeps Serves m → Keeps Agreeing m
agree k = weaken (λ w w' e. e.0) k

and_agree :
    {A B : Type 0} (m : M A) (f : A → M B)
    → Keeps Agreeing m
    → ((a : A) → Keeps Agreeing (f a))
    → Keeps Agreeing (m >>= f)
and_agree m f km kf = bind Agreeing-then km kf

agree_done : {A : Type 0} (a : A) → Keeps Agreeing (pure a)
agree_done a = agree (serve_done a)

set_registry-Agreeing : (r : ClientRegistry) → Keeps Agreeing (set_registry r)
set_registry-Agreeing r = record { run = λ w. record { lists = λ a. a; op = λ e. e } }

-- A client whose list and array agree is stored.
store_agreed : (p : Ptr) (c : Client) → Agrees c → Keeps Agreeing (store_client p (some c))
unfolding store_client
store_agreed p c a = record {
  run = λ w. record { lists = λ all q d h. at (p == q) (w.clients q) d (all q d) h; op = λ e. e };
}
  where
    at :
        (b : Bool) (o : Option Client) (d : Client)
        → (o ≡ some d → Agrees d)
        → (if b then some c else o) ≡ some d
        → Agrees d
    at true o d f h = rw (← same h) a
      where
        same : some c ≡ some d → c ≡ d
        same e = cc
    at false o d f h = f h

-- Initialisers that leave CLIENT_INVITE_OP_SEM at 1, and those that bring it there.
abbrev Opening : List (Semaphores → Semaphores) → Type 0
Opening [] = Unit {0}
Opening (f ∷ fs) = ((s : Semaphores) → s.invite_op ≡ 1 → (f s).invite_op ≡ 1) × Opening fs

abbrev Opens : List (Semaphores → Semaphores) → Type 0
Opens [] = ⊥
Opens (f ∷ fs) = (((s : Semaphores) → (f s).invite_op ≡ 1) × Opening fs) ⊎ Opens fs

set_semaphores :
    (f : Semaphores → Semaphores)
    → ((s : Semaphores) → s.invite_op ≡ 1 → (f s).invite_op ≡ 1)
    → Keeps Agreeing (write λ w. record w { semaphores = f w.semaphores })
set_semaphores f h = record { run = λ w. record { lists = λ a. a; op = λ e. h w.semaphores e } }

init_semaphores-Agreeing :
    (fs : List (Semaphores → Semaphores)) → Opening fs → Keeps Agreeing (init_semaphores fs)
unfolding init_semaphores
init_semaphores-Agreeing [] o = agree_done true
init_semaphores-Agreeing (f ∷ fs) (h, o) = and_agree _ _ (agree (kept granted-Same)) λ given.
    branch _ (agree_done false)
      (and_agree _ _ (set_semaphores f h) λ _. init_semaphores-Agreeing fs o)

-- All of them have run.
abbrev Opened : Run Bool → Type 0
Opened (ok true w) = w.semaphores.invite_op ≡ 1
Opened (ok false w) = Unit {0}
Opened fault = Unit {0}
Opened blocked = Unit {0}

Opened-end : (w : World) (r : Run Bool) → w.semaphores.invite_op ≡ 1 → Ends Agreeing w r → Opened r
Opened-end w (ok true w') e a = a.op e
Opened-end w (ok false w') e a = tt
Opened-end w fault e a = tt
Opened-end w blocked e a = tt

-- The world after one initialiser.
abbrev after_one : (Semaphores → Semaphores) → World → World
after_one f w = record w { grants = (next_grant w.grants).1; semaphores = f w.semaphores }

init_rest :
    (f : Semaphores → Semaphores) (fs : List (Semaphores → Semaphores)) (w : World)
    → (Opens fs → Opened (init_semaphores fs (after_one f w)))
    → ((((s : Semaphores) → (f s).invite_op ≡ 1) × Opening fs) ⊎ Opens fs)
    → Opened (init_semaphores fs (after_one f w))
init_rest f fs w again (inl (h, p)) =
    Opened-end (after_one f w) _ (h w.semaphores)
      ((init_semaphores-Agreeing fs p).run (after_one f w))
init_rest f fs w again (inr p) = again p

init_semaphores-Opened :
    (fs : List (Semaphores → Semaphores)) (w : World) → Opens fs → Opened (init_semaphores fs w)
unfolding init_semaphores granted
init_semaphores-Opened [] w o = absurd o
init_semaphores-Opened (f ∷ fs) w o = elim (Bool-cases (next_grant w.grants).0) [
  | inr g ↦ rw g tt
  | inl g ↦ rw g (init_rest f fs w (init_semaphores-Opened fs (after_one f w)) o)
]

keeps_one : (s : Semaphores) → s.invite_op ≡ 1 → s.invite_op ≡ 1
keeps_one s e = e

opening : Opening sem_inits
opening = (
  keeps_one,
  (
    keeps_one,
    (
      keeps_one,
      (
        keeps_one,
        (keeps_one, (keeps_one, ((λ s e. refl), (keeps_one, (keeps_one, (keeps_one, tt)))))),
      ),
    ),
  ),
)

opens : Opens sem_inits
opens =
    inr (inr (inr (inr (inr (inr (inl ((λ s. refl), (keeps_one, (keeps_one, (keeps_one, tt))))))))))

created-Agreeing : (fd : ℕ) (ready : Bool) → Keeps Agreeing (created fd ready)
unfolding created
created-Agreeing fd ready = branch _ (agree_done none) (
    and_agree _ _ (agree (kept calloc-Same)) (elim [
      | none ↦ agree_done none
      | some p ↦ and_agree _ _ (agree (kept granted-Same)) λ ids. branch _ (agree_done none) (
          and_agree _ _ (agree (kept granted-Same)) λ mutex. branch _ (agree_done none) (
            and_agree _ _ (store_agreed p (initial_client fd) (initial_client-Agrees fd))
              λ _. and_agree _ _ (agree (kept (client_ref-Same p))) λ q. agree_done (some q)))
    ]))

client_create-Agreeing : (fd : ℕ) → Keeps Agreeing (client_create fd)
unfolding client_create created
client_create-Agreeing fd =
    and_agree _ _ (init_semaphores-Agreeing sem_inits opening) (created-Agreeing fd)

wait_login_queue-Agreeing : Keeps Agreeing wait_login_queue
unfolding wait_login_queue
wait_login_queue-Agreeing =
    and_agree _ _ (agree (serve_read (λ w. w.client_registry)))
      λ r. branch _ blocks (set_registry-Agreeing _)

pub creg_register-Agreeing : (fd : ℕ) → Keeps Agreeing (creg_register fd)
unfolding creg_register
creg_register-Agreeing fd = and_agree _ _ (agree (serve_read (λ w. w.client_registry))) λ r.
    branch (leb max_clients r.length) (agree_done none) (
      branch r.no_new (agree_done none) (
        and_agree _ _ wait_login_queue-Agreeing λ _. and_agree _ _ (agree lock_registry-Serves) λ _.
          and_agree _ _ (client_create-Agreeing fd) λ c.
            and_agree _ _ (agree (serve_read (λ w. w.client_registry))) λ s.
              and_agree _ _ (set_registry-Agreeing (add_entry s c))
                λ _. and_agree _ _ (agree unlock_registry-Serves) λ _. agree_done c))

-- The registry once a client has left.
abbrev one_less : ClientRegistry → ClientRegistry
one_less s = record s {
  length = s.length - 1;
  login_queue = s.login_queue + 1;
  sem = if s.length - 1 == 0 then s.sem + 1 else s.sem;
}

unregister_at-Agreeing : (depth : ℕ) (p : Ptr) (i : ℕ) → Keeps Agreeing (unregister_at depth p i)
unfolding unregister_at
unregister_at-Agreeing depth p i = and_agree _ _ (agree (serve_read (λ w. w.client_registry))) λ r.
    and_agree _ _ (set_registry-Agreeing _) λ _.
      and_agree _ _ (agree (kept (client_logout-Same depth p))) λ _.
        and_agree _ _
          (agree (kept (client_unref-Same (client_logout depth) (client_logout-Same depth) p)))
          λ _. and_agree _ _ (agree (serve_read (λ w. w.client_registry))) λ s.
            and_agree _ _ (set_registry-Agreeing (one_less s))
              λ _. and_agree _ _ (agree unlock_registry-Serves) λ _. agree_done success

pub creg_unregister-Agreeing :
    (depth : ℕ) (p : Ptr) → Keeps Agreeing (creg_unregister depth (some p))
unfolding creg_unregister
creg_unregister-Agreeing depth p = and_agree _ _ (agree lock_registry-Serves) λ _.
    and_agree _ _ (agree (serve_read (λ w. w.client_registry)))
      λ r. found (find_entry r.length 0 r.clients p)
  where
    found :
        (o : Option ℕ)
        → Keeps Agreeing
            (elim o [ none ↦ do unlock_registry; pure failure | some i ↦ unregister_at depth p i ])
    found none = and_agree _ _ (agree unlock_registry-Serves) λ _. agree_done failure
    found (some i) = unregister_at-Agreeing depth p i

-- A client is there only once the semaphores are.
abbrev pub Admits : Run (Option Ptr) → Type 0
Admits (ok (some p) w) = w.semaphores.invite_op ≡ 1
Admits (ok none w) = Unit {0}
Admits fault = Unit {0}
Admits blocked = Unit {0}

Admits-end :
    (w : World) (r : Run (Option Ptr)) → w.semaphores.invite_op ≡ 1 → Ends Agreeing w r → Admits r
Admits-end w (ok (some p) w') e a = a.op e
Admits-end w (ok none w') e a = tt
Admits-end w fault e a = tt
Admits-end w blocked e a = tt

client_create-Admits : (fd : ℕ) (w : World) → Admits (client_create fd w)
unfolding client_create created
client_create-Admits fd w =
    next (init_semaphores sem_inits w) (init_semaphores-Opened sem_inits w opens)
  where
    next : (r : Run Bool) → Opened r → Admits (and_then r (created fd))
    next (ok true w') e = Admits-end w' (created fd true w') e ((created-Agreeing fd true).run w')
    next (ok false w') e = tt
    next fault e = tt
    next blocked e = tt

Admits-after :
    {A : Type 0} (r : Run A) (f : A → M (Option Ptr))
    → ((a : A) (w : World) → Admits (f a w))
    → Admits (and_then r f)
Admits-after (ok a w) f h = h a w
Admits-after fault f h = tt
Admits-after blocked f h = tt

Admits-branch :
    (b : Bool) (m n : M (Option Ptr)) (w : World)
    → Admits (m w)
    → Admits (n w)
    → Admits ((if b then m else n) w)
Admits-branch true m n w a c = a
Admits-branch false m n w a c = c

entering : ℕ → M (Option Ptr)
entering fd = do
  client ← client_create fd
  s ← get_registry
  set_registry (add_entry s client)
  unlock_registry
  pure client

entering-Admits : (fd : ℕ) (w : World) → Admits (entering fd w)
unfolding entering unlock_registry
entering-Admits fd w = next (client_create fd w) (client_create-Admits fd w)
  where
    next :
        (r : Run (Option Ptr))
        → Admits r
        → Admits (
            and_then r λ client. get_registry >>= λ s.
            set_registry (add_entry s client) >> (unlock_registry >> pure client))
    next (ok (some p) w') e = e
    next (ok none w') e = tt
    next fault e = tt
    next blocked e = tt

pub creg_register-Admits : (fd : ℕ) (w : World) → Admits (creg_register fd w)
unfolding creg_register entering
creg_register-Admits fd w =
    Admits-branch (leb max_clients w.client_registry.length) (pure none) _ w tt (
      Admits-branch w.client_registry.no_new (pure none) _ w tt (
        Admits-after (wait_login_queue w) _
          λ _ w'. Admits-after (lock_registry w') _ λ _ w''. entering-Admits fd w''))
