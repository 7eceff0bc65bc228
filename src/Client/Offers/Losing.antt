-- ===== src/Client/Offers/Losing.antt =====
-- src/client.c: what the two clients of an invitation lose when it is declined.
use jeux_game_server.Prelude.{
  ℕ, suc, ◌-◌, ◌<◌, ◌≡◌, ◌≢◌, refl, ap, ◌∙◌, false, none, some, List, [], ◌∷◌, ◌++◌, ◌==◌, ==_iff,
  arith, length, length-set, get_or-set_self, get_or-set_ne, Bool-cases, inl, inr,
}
use jeux_game_server.Game.{Status, success, failure}
use jeux_game_server.Protocol.{Sending}
use jeux_game_server.World.{
  Ptr, Client, Invitation, InvitationNode, World, Run, ok, fault, blocked, M,
}
use jeux_game_server.World.Changing.{HoldsTwo}
use jeux_game_server.Client.Packets.Going.{Goes}
use jeux_game_server.Client.Ids.{free_id}
use jeux_game_server.Client.Ids.Entries.{IdsValid, entry}
use jeux_game_server.Client.Invites.{find_id, find_invitation, unlink}
use jeux_game_server.Client.Invites.Removing.{without}
use jeux_game_server.Client.Offers.{client_decline_invitation}
use jeux_game_server.Client.Offers.Declining.{
  TakesBack, offered, client_decline_invitation-TakesBack,
}

-- No node of a list has the invitation.
abbrev pub Lacks : Ptr → List InvitationNode → Type 0
Lacks inv [] = Unit {0}
Lacks inv (m ∷ nodes) = ((m.invitation == inv) ≡ false) × Lacks inv nodes

-- The second list is the first without the node that has the invitation under an ID, the first of
-- those that have it.
abbrev pub WithoutNode : Ptr → ℕ → List InvitationNode → List InvitationNode → Type 0
WithoutNode inv n l l' =
    (front : List InvitationNode) × (back : List InvitationNode) × Lacks inv front
    × (l ≡ front ++ record { id = some n; invitation = inv } ∷ back)
    × (l' ≡ front ++ back)

unlink-WithoutNode :
    (l : List InvitationNode) (inv : Ptr) (n : ℕ)
    → find_id l inv ≡ some n
    → WithoutNode inv n l (unlink l inv)
unfolding find_id unlink
unlink-WithoutNode [] inv n e = cc
unlink-WithoutNode (m ∷ l) inv n e = elim (Bool-cases (m.invitation == inv)) [
  | inl t ↦
      rw t ([], l, tt, ap (λ k. k ∷ l) (same m (rw t at e) ((==_iff m.invitation inv).0 t)), refl)
  | inr f ↦
      let (front, back, a, b, c) = unlink-WithoutNode l inv n (rw f at e) in
      rw f (m ∷ front, back, (f, a), ap (λ k. m ∷ k) b, ap (λ k. m ∷ k) c)
]
  where
    same :
        (k : InvitationNode)
        → k.id ≡ some n
        → k.invitation ≡ inv
        → k ≡ record { id = some n; invitation = inv }
    same k a b =
        ap (λ d. record k { id = d }) a ∙ ap (λ p. record { id = some n; invitation = p }) b

-- The client without an invitation: its node is out of the list, its ID is free, the other
-- entries of the array are as they were, and so is the rest of the client, which nobody has
-- locked.
pub record Loses (inv : Ptr) (n : ℕ) (x x' : Client) : Type 0 where
  pub list : WithoutNode inv n x.invite_head x'.invite_head
  pub free : entry x'.available_ids n ≡ some n
  pub others : (j : ℕ) → n ≢ j → entry x'.available_ids j ≡ entry x.available_ids j
  pub size : length x'.available_ids ≡ length x.available_ids
  pub usage : x'.id_usage ≡ x.id_usage - 1
  pub room : x'.current_id_size ≡ x.current_id_size
  pub fd : x'.fd ≡ x.fd
  pub player : x'.player ≡ x.player
  pub logged_in : x'.logged_in ≡ x.logged_in
  pub unlocked : x'.lock ≡ false

without-Loses :
    (x : Client) (inv : Ptr) (n c : ℕ)
    → length x.available_ids ≡ x.current_id_size
    → n < x.current_id_size
    → find_id x.invite_head inv ≡ some n
    → Loses inv n x (record (without x inv n) { ref_count = c })
unfolding free_id
without-Loses x inv n c s z f = record {
  list = unlink-WithoutNode x.invite_head inv n f;
  free = get_or-set_self x.available_ids n (some n) none (omega (arith, s, z));
  others = λ j d. get_or-set_ne x.available_ids n j (some n) none d;
  size = length-set x.available_ids n (some n);
  usage = refl;
  room = refl;
  fd = refl;
  player = refl;
  logged_in = refl;
  unlocked = refl;
}

-- How the declining ends: each client loses the invitation and has a reference less.
abbrev pub Declines : Ptr → Ptr → Ptr → Client → Client → ℕ → ℕ → World → Run Status → Type 0
Declines inv s t x y n id w (ok success w') =
    ((x' : Client) × (y' : Client) × HoldsTwo w'.clients w.clients s x' t y'
      × Loses inv n x x'
      × (x'.ref_count ≡ x.ref_count - 1)
      × Loses inv id y y'
      × (y'.ref_count ≡ y.ref_count - 1))
    × (w'.invitations inv ≡ none)
    × ((q : Ptr) → (inv == q) ≡ false → w'.invitations q ≡ w.invitations q)
    × ((p : Sending) × Goes x.fd 14 n 0 none p w.sent w'.sent)
    × (w'.players ≡ w.players)
    × (w'.games ≡ w.games)
    × (w'.semaphores ≡ w.semaphores)
Declines inv s t x y n id w (ok failure w') = ⊥
Declines inv s t x y n id w fault = ⊥
Declines inv s t x y n id w blocked = ⊥

TakesBack-Declines :
    (w : World) (s t inv : Ptr) (x y : Client) (n id a b : ℕ) (r : Run Status)
    → IdsValid x
    → IdsValid y
    → x.ref_count ≡ suc (suc a)
    → y.ref_count ≡ suc (suc b)
    → find_id x.invite_head inv ≡ some n
    → find_id y.invite_head inv ≡ some id
    → n < x.current_id_size
    → id < y.current_id_size
    → TakesBack inv s t x y n id a b w r
    → Declines inv s t x y n id w r
unfolding free_id
TakesBack-Declines w s t inv x y n id a b (ok success w') vx vy ca cb fx fy zx zy
      (two, d, j, p, pl, g, sem) =
    (
      (
        record (without x inv n) { ref_count = suc a },
        record (without y inv id) { ref_count = suc b },
        two,
        without-Loses x inv n (suc a) vx.size zx fx,
        omega (arith, ca),
        without-Loses y inv id (suc b) vy.size zy fy,
        omega (arith, cb),
      ),
      d,
      j,
      p,
      pl,
      g,
      sem,
    )
TakesBack-Declines w s t inv x y n id a b (ok failure w') vx vy ca cb fx fy zx zy h = absurd h
TakesBack-Declines w s t inv x y n id a b fault vx vy ca cb fx fy zx zy h = absurd h
TakesBack-Declines w s t inv x y n id a b blocked vx vy ca cb fx fy zx zy h = absurd h

-- For an open invitation without a game that its two clients alone hold, each under an ID within
-- its array, where neither client is locked, their arrays of IDs are in order, both have another
-- reference, and the two semaphores can be had: when the target declines it,
-- client_decline_invitation always returns success. The invitation is freed; each client loses
-- its first node of the invitation, and keeps the other nodes in order; the node's ID is free
-- again, and the other entries of the array are as they were; and each client has a reference
-- less and is otherwise as it was. One packet goes out, DECLINED to the source with the source's
-- ID, or the part of it that could be written; and the other clients and invitations, the
-- players, the games and the semaphores are as they were.
pub client_decline_invitation-Declines :
    (again : Ptr → M Status) (w : World) (s t inv : Ptr) (x y : Client) (i : Invitation)
    (n id a b : ℕ)
    → (s == t) ≡ false
    → w.clients s ≡ some x
    → w.clients t ≡ some y
    → x.lock ≡ false
    → y.lock ≡ false
    → IdsValid x
    → IdsValid y
    → x.ref_count ≡ suc (suc a)
    → y.ref_count ≡ suc (suc b)
    → find_invitation y.invite_head id ≡ some inv
    → find_id x.invite_head inv ≡ some n
    → find_id y.invite_head inv ≡ some id
    → n < x.current_id_size
    → id < y.current_id_size
    → w.invitations inv ≡ some (offered i s t)
    → 0 < w.semaphores.invite
    → 0 < w.semaphores.invite_op
    → Declines inv s t x y n id w (client_decline_invitation again t id w)
client_decline_invitation-Declines again w s t inv x y i n id a b o e f l m vx vy ca cb fi fx fy zx
      zy u hi ho =
    TakesBack-Declines w s t inv x y n id a b (client_decline_invitation again t id w) vx vy ca cb
      fx fy zx zy
      (client_decline_invitation-TakesBack again w s t inv x y i n id a b o e f l m ca cb fi fx fy
        zx zy u hi ho)
