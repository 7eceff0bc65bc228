-- ===== src/Client/Serving.antt =====
-- src/client.c and src/player_registry.c: what every command that serves a request keeps, and the
-- commands that log a client in.
pub mod Login
use jeux_game_server.Prelude.{
  ℕ, zero, suc, ◌≡◌, refl, sym, ap, ◌∙◌, Bool, true, false, Option, none, some, List, [], ◌∷◌, ◌==◌,
  if◌then◌else◌, length, inl, inr, Option-cases,
}
use jeux_game_server.Game.{Status, success, failure}
use jeux_game_server.Game.Text.{Text}
use jeux_game_server.World.{
  Ptr, Client, ClientState, client_logged_in, client_logged_out, World, Run, ok, fault, blocked, M,
  pure, ◌>>=◌, ◌>>◌, Semaphores, sem_wait, sem_post, read, present, load_client, store_client,
}
use jeux_game_server.World.Keeps.{
  Keeps, Ends, Ends-after, Composes, bind, weaken, branch, faults, blocks,
}
use jeux_game_server.Client.Lists.{Moves}
use jeux_game_server.Client.Lists.Lookup.{Agrees}
use jeux_game_server.Client.Outside.{SameOp, stored_client}
use jeux_game_server.Client.Balance.{done, reads}
use jeux_game_server.Client.Balance.Agreement.{agreed_at}

-- The list and the array of IDs agree for every client.
abbrev pub AllAgree : World → Type 0
AllAgree w = (p : Ptr) (c : Client) → w.clients p ≡ some c → Agrees c

pub record Agreeing (w w' : World) : Type 0 where
  pub lists : AllAgree w → AllAgree w'
  pub op : w.semaphores.invite_op ≡ 1 → w'.semaphores.invite_op ≡ 1

-- The entries of the client registry and the login queue stay as they are.
pub record SamePlaces (w w' : World) : Type 0 where
  pub clients : w'.client_registry.clients ≡ w.client_registry.clients
  pub length : w'.client_registry.length ≡ w.client_registry.length
  pub login_queue : w'.client_registry.login_queue ≡ w.client_registry.login_queue

abbrev pub Serves : World → World → Type 0
Serves w w' = Agreeing w w' × SamePlaces w w'

pub serves : (w : World) → Serves w w
serves w = (
  record { lists = λ a. a; op = λ e. e },
  record { clients = refl; length = refl; login_queue = refl },
)

pub Agreeing-then : Composes Agreeing Agreeing Agreeing
Agreeing-then u v w a b = record { lists = λ l. b.lists (a.lists l); op = λ e. b.op (a.op e) }

Serves-then : Composes Serves Serves Serves
Serves-then u v w (a, p) (b, q) = (
  Agreeing-then u v w a b,
  record {
    clients = q.clients ∙ p.clients;
    length = q.length ∙ p.length;
    login_queue = q.login_queue ∙ p.login_queue;
  },
)

pub and_serve :
    {A B : Type 0} (m : M A) (f : A → M B)
    → Keeps Serves m
    → ((a : A) → Keeps Serves (f a))
    → Keeps Serves (m >>= f)
and_serve m f km kf = bind Serves-then km kf

from_same : (w w' : World) → SameOp w w' → Serves w w'
from_same w w' e = (
  record {
    lists = λ all p c' h.
        let (c, g, f) = agreed_at (w.clients p) (w'.clients p) c' (e.2 p) h in f (all p c g);
    op = λ h. e.0 ∙ h;
  },
  record {
    clients = ap (λ r. r.clients) e.1.client_registry;
    length = ap (λ r. r.length) e.1.client_registry;
    login_queue = ap (λ r. r.login_queue) e.1.client_registry;
  },
)

pub kept : {A : Type 0} {m : M A} → Keeps SameOp m → Keeps Serves m
kept k = weaken from_same k

-- A change of a client, and what follows it.
pub serve_change :
    {B : Type 0} (p : Ptr) (f : Client → Client) (k : Client → M B)
    → ((c : Client) → Moves c (f c))
    → ((c : Client) → Keeps Serves (k c))
    → Keeps Serves (load_client p >>= λ c. store_client p (some (f c)) >> k c)
unfolding load_client store_client
serve_change p f k moves kk = record {
  run = λ w. elim (Option-cases (w.clients p)) [
    | inl e ↦ rw e tt
    | inr (c, e) ↦ rw e (
        Ends-after Serves Serves Serves w _ (k c _) Serves-then
          (from_same w _ (stored_client w p (some (f c)) (rw e (moves c)))) ((kk c).run _))
  ];
}

pub serve_done : {A : Type 0} (a : A) → Keeps Serves (pure a)
serve_done a = kept (done a)

pub serve_read : {A : Type 0} (f : World → A) → Keeps Serves (read f)
serve_read f = kept (reads f)

pub serve_present : {A : Type 0} (o : Option A) → Keeps Serves (present o)
serve_present none = faults
serve_present (some a) = serve_done a

serve_end :
    (b : Bool) (w w' : World) → Serves w w' → Ends Serves w (if b then blocked else ok tt w')
serve_end true w w' e = tt
serve_end false w w' e = e

other_semaphore :
    (w : World) (s : Semaphores)
    → s.invite_op ≡ w.semaphores.invite_op
    → Serves w (record w { semaphores = s })
other_semaphore w s e = (
  record { lists = λ a. a; op = λ h. e ∙ h },
  record { clients = refl; length = refl; login_queue = refl },
)

pub serve_wait :
    (get : Semaphores → ℕ) (put : ℕ → Semaphores → Semaphores)
    → ((n : ℕ) (s : Semaphores) → (put n s).invite_op ≡ s.invite_op)
    → Keeps Serves (sem_wait get put)
unfolding sem_wait
serve_wait get put h = record {
  run = λ w. serve_end _ w _ (other_semaphore w _ (h _ w.semaphores));
}

pub serve_post :
    (get : Semaphores → ℕ) (put : ℕ → Semaphores → Semaphores)
    → ((n : ℕ) (s : Semaphores) → (put n s).invite_op ≡ s.invite_op)
    → Keeps Serves (sem_post get put)
unfolding sem_post
serve_post get put h = record { run = λ w. other_semaphore w _ (h _ w.semaphores) }

pub serve_option :
    {A B : Type 0} (o : Option A) (m : M B) (f : A → M B)
    → Keeps Serves m
    → ((a : A) → Keeps Serves (f a))
    → Keeps Serves (elim o [ none ↦ m | some a ↦ f a ])
serve_option none m f km kf = km
serve_option (some a) m f km kf = kf a

pub serve_status :
    {B : Type 0} (s : Status) (m n : M B)
    → Keeps Serves m
    → Keeps Serves n
    → Keeps Serves (elim s [ success ↦ m | failure ↦ n ])
serve_status success m n km kn = km
serve_status failure m n km kn = kn

pub serve_state :
    {B : Type 0} (s : ClientState) (m n : M B)
    → Keeps Serves m
    → Keeps Serves n
    → Keeps Serves (elim s [ client_logged_in ↦ m | client_logged_out ↦ n ])
serve_state client_logged_in m n km kn = km
serve_state client_logged_out m n km kn = kn

pub ruleset serve_rules = (
  and_serve, serve_done, serve_read, serve_present, serve_option, serve_status, branch, faults,
  blocks,
)
