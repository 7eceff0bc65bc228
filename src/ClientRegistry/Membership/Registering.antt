-- ===== src/ClientRegistry/Membership/Registering.antt =====
-- src/client_registry.c: what creg_register does on each of its branches.
use jeux_game_server.Prelude.{
  ℕ, ◌-◌, ◌≤◌, ◌<◌, ◌≡◌, refl, ap, ◌∙◌, ◌⊎◌, inl, inr, Bool, true, false, not, Option, none, some,
  List, [], ◌∷◌, arith, if◌then◌else◌, Bool-cases, leb,
}
use jeux_game_server.World.{
  load_client, next_grant, Ptr, World, Run, ok, fault, blocked, M, pure, ◌>>=◌, ◌>>◌, and_then,
  ClientRegistry, Semaphores, calloc, granted, store_client,
}
use jeux_game_server.Client.Object.{
  lock_client, unlock_client, client_create, client_ref, sem_inits, init_semaphores, initial_client,
}
use jeux_game_server.ClientRegistry.{
  max_clients, get_registry, set_registry, lock_registry, unlock_registry,
}
use jeux_game_server.ClientRegistry.Membership.{add_entry, creg_register, wait_login_queue}

-- A run that returns with the registry as it was.
abbrev Returns : {A : Type 0} → World → Run A → Type 0
Returns w (ok a w') = w'.client_registry ≡ w.client_registry
Returns w fault = ⊥
Returns w blocked = ⊥

init-Returns : (fs : List (Semaphores → Semaphores)) (w : World) → Returns w (init_semaphores fs w)
unfolding init_semaphores granted
init-Returns [] w = refl
init-Returns (f ∷ fs) w = elim (Bool-cases (next_grant w.grants).0) [
  | inl e ↦
      rw e (
        init-Returns fs
          (record w { grants = (next_grant w.grants).1; semaphores = f w.semaphores }))
  | inr e ↦ rw e refl
]

-- The part of client_create after the semaphores.
unfoldable pub created : ℕ → Bool → M (Option Ptr)
created fd ready = if not ready then pure none else do
  p ← calloc
  elim p [
    | none ↦ pure none
    | some p ↦ do
      ids ← granted
      if not ids then pure none else do
        mutex ← granted
        if not mutex
            then pure none
            else do store_client p (some (initial_client fd)); q ← client_ref p; pure (some q)
  ]

created-Returns : (fd : ℕ) (b : Bool) (w : World) → Returns w (created fd b w)
unfolding created calloc granted store_client client_ref lock_client unlock_client load_client
created-Returns fd false w = refl
created-Returns fd true w = ground arith

Returns-then :
    {A B : Type 0} (P : Run B → Type 0) (w : World) (r : Run A) (f : A → M B)
    → ((a : A) (w' : World) → w'.client_registry ≡ w.client_registry → P (f a w'))
    → Returns w r
    → P (and_then r f)
Returns-then P w (ok a w') f k e = k a w' e
Returns-then P w fault f k e = absurd e
Returns-then P w blocked f k e = absurd e

Returns-from :
    {A : Type 0} (w w' : World) (r : Run A)
    → w'.client_registry ≡ w.client_registry
    → Returns w' r
    → Returns w r
Returns-from w w' (ok a v) e d = d ∙ e
Returns-from w w' fault e d = d
Returns-from w w' blocked e d = d

client_create-Returns : (fd : ℕ) (w : World) → Returns w (client_create fd w)
unfolding client_create created
client_create-Returns fd w =
    Returns-then (Returns w) w (init_semaphores sem_inits w) (created fd)
      (λ b w' e. Returns-from w w' (created fd b w') e (created-Returns fd b w'))
      (init-Returns sem_inits w)

-- The registry once the place is taken.
abbrev pub entered_as : ClientRegistry → Option Ptr → ClientRegistry
entered_as r c = record (add_entry (record r { login_queue = r.login_queue - 1 }) c) {
  mutex = false;
}

-- How a call of creg_register ends.
pub data Registering (w : World) : Run (Option Ptr) → Type 0 where
  full : max_clients ≤ w.client_registry.length → Registering w (ok none w)
  shut_down : w.client_registry.no_new ≡ true → Registering w (ok none w)
  waits :
      (w.client_registry.login_queue ≡ 0) ⊎ (w.client_registry.mutex ≡ true) → Registering w blocked
  entered :
      {w' : World} (c : Option Ptr)
      → w.client_registry.length < max_clients
      → w.client_registry.no_new ≡ false
      → 0 < w.client_registry.login_queue
      → w'.client_registry ≡ entered_as w.client_registry c
      → Registering w (ok c w')

-- What is left of the function once the place is taken.
unfoldable pub enter : ℕ → M (Option Ptr)
enter fd = do
  client ← client_create fd
  s ← get_registry
  set_registry (add_entry s client)
  unlock_registry
  pure client

pub register-full :
    (w : World) (fd : ℕ)
    → leb max_clients w.client_registry.length ≡ true
    → creg_register fd w ≡ ok none w
unfolding creg_register
register-full w fd e = ground arith

pub register-shut :
    (w : World) (fd : ℕ)
    → leb max_clients w.client_registry.length ≡ false
    → w.client_registry.no_new ≡ true
    → creg_register fd w ≡ ok none w
unfolding creg_register
register-shut w fd e s = ground arith

pub register-blocks :
    (w : World) (fd : ℕ)
    → leb max_clients w.client_registry.length ≡ false
    → w.client_registry.no_new ≡ false
    → (w.client_registry.login_queue ≡ 0) ⊎ (w.client_registry.mutex ≡ true)
    → creg_register fd w ≡ blocked
unfolding creg_register wait_login_queue lock_registry
register-blocks w fd e s b = ground arith

-- The world in which the place is taken and the registry is locked.
abbrev pub locked_in : World → World
locked_in w = record w {
  client_registry = record w.client_registry {
    login_queue = w.client_registry.login_queue - 1;
    mutex = true;
  };
}

pub register-enters :
    (w : World) (fd : ℕ)
    → leb max_clients w.client_registry.length ≡ false
    → w.client_registry.no_new ≡ false
    → 0 < w.client_registry.login_queue
    → w.client_registry.mutex ≡ false
    → creg_register fd w ≡ enter fd (locked_in w)
unfolding creg_register wait_login_queue lock_registry enter
register-enters w fd e s l m = ground arith

enter-Registering :
    (w : World) (fd : ℕ)
    → w.client_registry.length < max_clients
    → w.client_registry.no_new ≡ false
    → 0 < w.client_registry.login_queue
    → Registering w (enter fd (locked_in w))
unfolding enter unlock_registry add_entry
enter-Registering w fd l s q =
    Returns-then (Registering w) (locked_in w) (client_create fd (locked_in w)) _
      (λ c w' e. entered c l s q (ap (λ r. record (add_entry r c) { mutex = false }) e))
      (client_create-Returns fd (locked_in w))

pub leb-false : (a b : ℕ) → leb a b ≡ false → b < a
leb-false a b e = ground arith

pub leb-true : (a b : ℕ) → leb a b ≡ true → a ≤ b
leb-true a b e = ground arith

pub zero-cases : (n : ℕ) → (n ≡ 0) ⊎ (0 < n)
zero-cases n = ground arith

-- The branches of creg_register, whatever memory can be had: the entry is NULL where a client
-- cannot be made.
pub creg_register-Registering : (w : World) (fd : ℕ) → Registering w (creg_register fd w)
creg_register-Registering w fd = elim (Bool-cases (leb max_clients w.client_registry.length)) [
  | inl e ↦ rw (register-full w fd e) (full (leb-true _ _ e))
  | inr e ↦ elim (Bool-cases w.client_registry.no_new) [
    | inl s ↦ rw (register-shut w fd e s) (shut_down s)
    | inr s ↦ elim (zero-cases w.client_registry.login_queue) [
      | inl q ↦ rw (register-blocks w fd e s (inl q)) (waits (inl q))
      | inr q ↦ elim (Bool-cases w.client_registry.mutex) [
        | inl m ↦ rw (register-blocks w fd e s (inr m)) (waits (inr m))
        | inr m ↦ rw (register-enters w fd e s q m) (enter-Registering w fd (leb-false _ _ e) s q)
      ]
    ]
  ]
]
