-- ===== src/Client/Lists/Finding.antt =====
-- src/client.c: what client_get_invitation returns, where the list and the array of IDs agree.
use jeux_game_server.Prelude.{
  ℕ, ◌+◌, ◌≤◌, ◌<◌, ◌≡◌, ◌↔◌, refl, sym, ap, ◌∙◌, true, false, Option, none, some, List, [], ◌∷◌,
  arith, length, ==_iff, inl, inr, Bool-cases, ◌==◌, ◌⊎◌,
}
use jeux_game_server.World.{Ptr, InvitationNode, Client, World, Run, ok, fault, blocked}
use jeux_game_server.Client.Ids.Entries.{entry}
use jeux_game_server.Client.Invites.{id_is, find_invitation, client_get_invitation}
use jeux_game_server.Client.Lists.{uses}
use jeux_game_server.Client.Lists.Lookup.{Agrees, find_invitation-taken}
use jeux_game_server.Client.Offers.Touching.{get-runs, touched}

-- A list has the node of an invitation under an ID.
abbrev pub HasNode : ℕ → Ptr → List InvitationNode → Type 0
HasNode id inv [] = ⊥
HasNode id inv (m ∷ nodes) = (m ≡ record { id = some id; invitation = inv }) ⊎ HasNode id inv nodes

node_used :
    (nodes : List InvitationNode) (id : ℕ) (inv : Ptr) → HasNode id inv nodes → 1 ≤ uses nodes id
node_used [] id inv h = absurd h
node_used (m ∷ nodes) id inv (inl e) = rw (e, (==_iff id id).1 refl) (omega arith)
node_used (m ∷ nodes) id inv (inr h) = omega (arith, node_used nodes id inv h)

less : (k : ℕ) → 0 + k ≤ 1 → k ≤ 1
less k a = omega arith

one_left : (k : ℕ) → 1 + k ≤ 1 → 1 ≤ k → ⊥
one_left k a b = omega arith

id_is-true : (o : Option ℕ) (id : ℕ) → id_is o id ≡ true → o ≡ some id
id_is-true none id e = cc
id_is-true (some n) id e = ap (λ k. some k) ((==_iff n id).0 e)

some_injective : {p q : Ptr} → some p ≡ some q → p ≡ q
some_injective e = cc

found-HasNode :
    (nodes : List InvitationNode) (id : ℕ) (inv : Ptr)
    → find_invitation nodes id ≡ some inv
    → HasNode id inv nodes
unfolding find_invitation
found-HasNode [] id inv f = cc
found-HasNode (m ∷ nodes) id inv f = elim (Bool-cases (id_is m.id id)) [
  | inl e ↦ inl (same m (id_is-true m.id id e) (rw e at f))
  | inr e ↦ inr (found-HasNode nodes id inv (rw e at f))
]
  where
    same :
        (k : InvitationNode)
        → k.id ≡ some id
        → some k.invitation ≡ some inv
        → k ≡ record { id = some id; invitation = inv }
    same k a b =
        ap (λ d. record k { id = d }) a
        ∙ ap (λ p. record { id = some id; invitation = p }) (some_injective b)

HasNode-found :
    (nodes : List InvitationNode) (id : ℕ) (inv : Ptr)
    → uses nodes id ≤ 1
    → HasNode id inv nodes
    → find_invitation nodes id ≡ some inv
unfolding find_invitation
HasNode-found [] id inv u h = absurd h
HasNode-found (m ∷ nodes) id inv u (inl e) = rw (e, (==_iff id id).1 refl) refl
HasNode-found (m ∷ nodes) id inv u (inr h) = elim (Bool-cases (id_is m.id id)) [
  | inl e ↦ absurd (one_left (uses nodes id) (rw e at u) (node_used nodes id inv h))
  | inr e ↦ rw e (HasNode-found nodes id inv (less (uses nodes id) (rw e at u)) h)
]

-- How a search for an ID ends: with the invitation of the one node that has it, which there is
-- exactly when the ID is taken in the array; and every object is as it was.
abbrev pub FindsNode : ℕ → Client → World → Run (Option Ptr) → Type 0
FindsNode id x w (ok found w') =
    ((inv : Ptr) → (found ≡ some inv) ↔ HasNode id inv x.invite_head)
    × (((inv : Ptr) × (found ≡ some inv))
        ↔ ((id < length x.available_ids) × (entry x.available_ids id ≡ none)))
    × ((q : Ptr) → w'.clients q ≡ w.clients q)
    × (w' ≡ record w { clients = w'.clients })
FindsNode id x w fault = ⊥
FindsNode id x w blocked = ⊥

-- A client that is unlocked is not changed by taking and releasing its lock.
touched-same :
    (g : Ptr → Option Client) (p : Ptr) (x : Client)
    → g p ≡ some x
    → x.lock ≡ false
    → (q : Ptr) → touched g p x q ≡ g q
touched-same g p x e l q = elim (Bool-cases (p == q)) [
  | inl t ↦ rw t (ap (λ b. some (record x { lock = b })) (sym l) ∙ sym e ∙ ap g ((==_iff p q).0 t))
  | inr f ↦ rw f refl
]

-- For a client that nobody has locked and whose list and array of IDs agree:
-- client_get_invitation always returns; it returns an invitation under an ID exactly when the
-- list has a node with that invitation and that ID, so the one node under the ID; it finds one
-- exactly when the ID lies within the array and is taken there; and it changes nothing.
pub client_get_invitation-FindsNode :
    (w : World) (p : Ptr) (x : Client) (id : ℕ)
    → w.clients p ≡ some x
    → x.lock ≡ false
    → Agrees x
    → FindsNode id x w (client_get_invitation p id w)
client_get_invitation-FindsNode w p x id e l a =
    let (taken, one) = find_invitation-taken x a id in
    rw (get-runs w p x id e l) (
      λ inv. (found-HasNode x.invite_head id inv, HasNode-found x.invite_head id inv one),
      taken,
      touched-same w.clients p x e l,
      refl,
    )
