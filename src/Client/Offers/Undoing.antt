-- ===== src/Client/Offers/Undoing.antt =====
-- src/client.c: an invitation that is made and then declined.
use jeux_game_server.Prelude.{
  ℕ, suc, ◌<◌, ◌≡◌, refl, ap, sym, ◌∙◌, false, Option, none, some, List, [], ◌∷◌, ◌==◌, arith,
  Bool-cases, ==_iff, leb, inl, inr, zero, length, ◌^◌,
}
use jeux_game_server.Game.{Role, Status, success, failure}
use jeux_game_server.World.{Ptr, Client, Player, InvitationNode, World, Run, ok, fault, blocked, M}
use jeux_game_server.World.Changing.{same_pointer, HoldsTwo}
use jeux_game_server.Client.Ids.{grow_ids, allot_id, free_id}
use jeux_game_server.Client.Ids.Entries.{IdsValid, entry}
use jeux_game_server.Client.Ids.Allot.{with_room, with_room-IdsValid, IsLowest}
use jeux_game_server.Client.Ids.Giving.{locked, given_id}
use jeux_game_server.Client.Ids.Restoring.{free_id-allot_id}
use jeux_game_server.Client.Invites.{unlink, find_id}
use jeux_game_server.Client.Invites.Adding.{invited, HasInvitation}
use jeux_game_server.Client.Invites.Removing.{without}
use jeux_game_server.Client.Offers.Creating.{counted, held_once}
use jeux_game_server.Client.Offers.{client_make_invitation, client_decline_invitation}
use jeux_game_server.Client.Offers.Making.{Makes, counted-IdsValid, client_make_invitation-Makes}
use jeux_game_server.Client.Offers.Declining.{TakesBack, client_decline_invitation-TakesBack}

-- A client that is not locked, with the references of another.
abbrev given_up : Client → Client → Client
given_up x d = record d { lock = false; ref_count = x.ref_count }

same_room :
    (x : Client)
    → x.lock ≡ false
    → record (with_room (locked (counted x))) { lock = false; ref_count = x.ref_count }
      ≡ with_room x
unfolding grow_ids
same_room x l = elim (Bool-cases (leb x.current_id_size x.id_usage)) [
  | inl f ↦ rw f (ap (λ b. record (grow_ids x) { lock = b }) (sym l))
  | inr f ↦ rw f (ap (λ b. record x { lock = b }) (sym l))
]

without-invited :
    (x : Client) (inv : Ptr) (n : ℕ)
    → IdsValid x
    → x.lock ≡ false
    → given_id (counted x) ≡ some n
    → without (record (invited (counted x) inv) { ref_count = x.ref_count }) inv n ≡ with_room x
unfolding free_id unlink
without-invited x inv n v l e = rw (same_pointer inv) (
    ap (given_up x) (
      free_id-allot_id (with_room (locked (counted x))) n
        (with_room-IdsValid (locked (counted x))
          (record { size = v.size; own = v.own; usage = v.usage; room = v.room })).own
        e)
    ∙ same_room x l)

entry_within : (ids : List (Option ℕ)) (k v : ℕ) → entry ids k ≡ some v → k < length ids
entry_within [] k v e = cc
entry_within (i ∷ ids) zero v e = omega arith
entry_within (i ∷ ids) (suc k) v e = omega (arith, entry_within ids k v e)

same_size :
    (x : Client) (inv : Ptr) → (invited x inv).current_id_size ≡ (with_room x).current_id_size
unfolding allot_id grow_ids
same_size x inv = ground arith

in_bounds :
    (x : Client) (inv : Ptr) (k : ℕ)
    → IdsValid x
    → IsLowest (with_room x).available_ids k
    → k < (invited x inv).current_id_size
in_bounds x inv k v low = omega (
  arith,
  entry_within (with_room x).available_ids k k low.0,
  (with_room-IdsValid x v).size,
  same_size x inv,
)

head_id : List InvitationNode → Option ℕ
head_id [] = none
head_id (n ∷ nodes) = n.id

-- The ID under which a client has the invitation is the one that it was given.
given :
    (x : Client) (inv : Ptr) (id : Option ℕ)
    → (h : HasInvitation inv x (invited x inv) id) → given_id x ≡ some h.0
unfolding head_id
given x inv id (n, a, b, c, d, e, f) = ap head_id d ∙ a

front_id :
    (x : Client) (inv : Ptr) (n : ℕ)
    → given_id x ≡ some n
    → find_id (invited x inv).invite_head inv ≡ some n
unfolding find_id
front_id x inv n e = rw (same_pointer inv) e

-- The invitation is made, and declined by its target under the ID `m`; the two clients are as they
-- were, but for the room of their arrays.
abbrev pub Undone :
    (Ptr → M Status) → Ptr → Ptr → Role → Role → Client → Client → World → Run (Option ℕ) → Type 0
Undone again s t rs rt x y w r =
    (n : ℕ) × (m : ℕ) × (v : World) × (w' : World) × (r ≡ ok (some n) v)
    × (client_decline_invitation again t m v ≡ ok success w')
    × HoldsTwo w'.clients w.clients s (with_room x) t (with_room y)
    × ((q : Ptr) → w'.invitations q ≡ w.invitations q)
    × (w'.players ≡ w.players)
    × (w'.games ≡ w.games)
    × (w'.semaphores ≡ w.semaphores)

declined :
    (inv s t : Ptr) (x y : Client) (n m a b : ℕ) (v : World) (r : Run Status)
    → TakesBack inv s t x y n m a b v r
    → (w' : World) × (r ≡ ok success w') × TakesBack inv s t x y n m a b v (ok success w')
declined inv s t x y n m a b v (ok success w') d = (w', refl, d)
declined inv s t x y n m a b v (ok failure w') d = absurd d
declined inv s t x y n m a b v fault d = absurd d
declined inv s t x y n m a b v blocked d = absurd d

back :
    (x : Client) (inv : Ptr) (n a : ℕ)
    → IdsValid x
    → x.lock ≡ false
    → x.ref_count ≡ suc a
    → given_id (counted x) ≡ some n
    → some (without (record (invited (counted x) inv) { ref_count = suc a }) inv n)
      ≡ some (with_room x)
back x inv n a v l c e =
    ap (λ r. some (without (record (invited (counted x) inv) { ref_count = r }) inv n)) (sym c)
    ∙ ap (λ d. some d) (without-invited x inv n v l e)

module _ (again : Ptr → M Status) (w : World) (s t : Ptr) (rs rt : Role) (x y : Client)
    (pl : Player) (a b : ℕ) (o : (s == t) ≡ false) (lx : x.lock ≡ false) (ly : y.lock ≡ false)
    (vx : IdsValid x) (vy : IdsValid y) (ca : x.ref_count ≡ suc a) (cb : y.ref_count ≡ suc b)
    (free : w.invitations w.fresh ≡ none) (hi : 0 < w.semaphores.invite)
    (ho : 0 < w.semaphores.invite_op) where
  made-Undone : (r : Run (Option ℕ)) → Makes s t rs rt x y pl w r → Undone again s t rs rt x y w r
  unfolding free_id
  made-Undone (ok id v) ((m, two, hx, sx, hy, sy, tells), (i, j), p, g, e) =
      let gx = given (counted x) w.fresh id hx in
      let gy = given (counted y) w.fresh (some m) hy in
      let (w', r, ((k, l, q), z, u, sends, p', g', e')) =
        declined w.fresh s t (invited (counted x) w.fresh) (invited (counted y) w.fresh) hx.0 hy.0 a
          b v _
          (client_decline_invitation-TakesBack again v s t w.fresh (invited (counted x) w.fresh)
            (invited (counted y) w.fresh) (held_once s t rs rt) hx.0 hy.0 a b o two.0 two.1 refl
            refl (omega (arith, sx.1, ca)) (omega (arith, sy.1, cb)) hy.5
            (front_id (counted x) w.fresh hx.0 gx) (front_id (counted y) w.fresh hy.0 gy)
            (in_bounds (counted x) w.fresh hx.0 (counted-IdsValid x vx) hx.2)
            (in_bounds (counted y) w.fresh hy.0 (counted-IdsValid y vy) hy.2) i (rw e hi)
            (rw e ho)) in
      (
        hx.0,
        hy.0,
        v,
        w',
        ap (λ d. ok d v) hx.1,
        r,
        (
          k ∙ back x w.fresh hx.0 a vx lx ca gx,
          l ∙ back y w.fresh hy.0 b vy ly cb gy,
          λ c f h. q c f h ∙ two.2 c f h,
        ),
        λ c. elim (Bool-cases (w.fresh == c)) [
          | inl eq ↦ rw (← (==_iff w.fresh c).0 eq) (z ∙ sym free)
          | inr ne ↦ u c ne ∙ j c ne
        ],
        p' ∙ p,
        g' ∙ g,
        e' ∙ e,
      )
  made-Undone fault d = absurd d
  made-Undone blocked d = absurd d

-- For two clients that are not locked, whose arrays of IDs are in order and to which there is a
-- reference, of which the source has a player with a name that fits a payload, with memory and
-- the two semaphores to be had: an invitation that is made can be declined by its target under an
-- ID, and both operations succeed. Then the two clients are as they were, lists and counts
-- included, but for an array of IDs that had to be doubled; and the other clients, all
-- invitations, the players, the games and the semaphores are as they were.
pub make-Undone :
    (again : Ptr → M Status) (w : World) (s t p : Ptr) (rs rt : Role) (x y : Client) (pl : Player)
    (a b : ℕ)
    → (s == t) ≡ false
    → w.clients s ≡ some x
    → w.clients t ≡ some y
    → x.lock ≡ false
    → y.lock ≡ false
    → IdsValid x
    → IdsValid y
    → x.ref_count ≡ suc a
    → y.ref_count ≡ suc b
    → x.player ≡ some p
    → w.players p ≡ some pl
    → length pl.name < 2 ^ 16
    → w.invitations w.fresh ≡ none
    → w.grants ≡ []
    → 0 < w.semaphores.invite
    → 0 < w.semaphores.invite_op
    → Undone again s t rs rt x y w (client_make_invitation again s t rs rt w)
make-Undone again w s t p rs rt x y pl a b o e f lx ly vx vy ca cb c d len free g hi ho =
    made-Undone again w s t rs rt x y pl a b o lx ly vx vy ca cb free hi ho
      (client_make_invitation again s t rs rt w)
      (client_make_invitation-Makes again w s t p rs rt x y pl o e f lx ly vx vy c d len g hi ho)
