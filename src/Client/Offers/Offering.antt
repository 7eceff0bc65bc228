-- ===== src/Client/Offers/Offering.antt =====
-- src/client.c: the branch of client_make_invitation for an invitation that was created.
use jeux_game_server.Prelude.{
  ℕ, ◌+◌, ◌<◌, ◌≡◌, refl, ap, sym, ◌∙◌, false, Option, some, [], ◌∷◌, ◌==◌, ◌^◌, arith, length,
}
use jeux_game_server.Game.{Role, Status}
use jeux_game_server.Protocol.{proto_send_packet}
use jeux_game_server.World.{
  Ptr, Player, Client, Invitation, World, Run, ok, fault, blocked, M, next_time, update,
}
use jeux_game_server.World.Changing.{same_pointer, Holds, HoldsTwo, other_way}
use jeux_game_server.Client.Ids.{allot_id, grow_ids}
use jeux_game_server.Client.Ids.Entries.{IdsValid}
use jeux_game_server.Client.Ids.Giving.{given_id}
use jeux_game_server.Client.Invites.Adding.{
  one_more, invited, HasInvitation, invited-HasInvitation, client_add_invitation-runs,
}
use jeux_game_server.Client.Offers.{offer}
use jeux_game_server.Client.Offers.Telling.{role_number, invited_header, announce-runs, Tells, told}
use jeux_game_server.Client.Packets.Going.{Goes-along}

-- What an allotment of an ID and a node leave alone in a client.
abbrev pub SameRest : Client → Client → Type 0
SameRest x x' =
    (x'.fd ≡ x.fd)
    × (x'.ref_count ≡ x.ref_count)
    × (x'.player ≡ x.player)
    × (x'.logged_in ≡ x.logged_in)

invited-SameRest : (x : Client) (inv : Ptr) → SameRest x (invited x inv)
unfolding allot_id grow_ids
invited-SameRest x inv = (ground arith, ground arith, ground arith, ground arith)

-- Both clients have the invitation, each under an ID of its own, and the target is told.
abbrev pub Offers :
    Ptr → Ptr → Ptr → Role → Client → Client → Player → World → Option ℕ → World → Type 0
Offers inv s t role x y pl w id w' =
    (m : ℕ) × HoldsTwo w'.clients w.clients s (invited x inv) t (invited y inv)
    × HasInvitation inv x (invited x inv) id
    × SameRest x (invited x inv)
    × HasInvitation inv y (invited y inv) (some m)
    × SameRest y (invited y inv)
    × Tells y.fd m role pl.name w w'

-- How the branch for an invitation that was created ends.
abbrev pub OffersIn :
    Ptr → Ptr → Ptr → Role → Client → Client → Player → Invitation → World → Run (Option ℕ) → Type 0
OffersIn inv s t role x y pl i w (ok id w') =
    Offers inv s t role x y pl w id w'
    × Holds w'.invitations w.invitations inv (one_more i)
    × (w'.players ≡ w.players)
    × (w'.games ≡ w.games)
    × (w'.semaphores ≡ record w.semaphores { invite_op = w.semaphores.invite_op + 1 })
OffersIn inv s t role x y pl i w fault = ⊥
OffersIn inv s t role x y pl i w blocked = ⊥

named :
    (inv : Ptr) (x x' : Client) (id id' : Option ℕ)
    → id ≡ id'
    → HasInvitation inv x x' id
    → HasInvitation inv x x' id'
named inv x x' id id' e (n, a, b, c, d, f, v) =
    (n, sym e ∙ a, b, c, d ∙ ap (λ m. record { id = m; invitation = inv } ∷ x.invite_head) e, f, v)

pub offer-OffersIn :
    (again : Ptr → M Status) (w : World) (s t inv a : Ptr) (role : Role) (x y : Client)
    (pl : Player) (i : Invitation)
    → (s == t) ≡ false
    → w.clients s ≡ some x
    → w.clients t ≡ some y
    → x.lock ≡ false
    → y.lock ≡ false
    → IdsValid x
    → IdsValid y
    → x.player ≡ some a
    → w.players a ≡ some pl
    → length pl.name < 2 ^ 16
    → w.invitations inv ≡ some i
    → i.ref_count ≡ 1
    → w.grants ≡ []
    → 0 < w.semaphores.invite
    → OffersIn inv s t role x y pl i w (offer again s t role inv w)
unfolding offer
offer-OffersIn again w s t inv a role x y pl i o e f l m vx vy b c len u k g hi =
    let (h2, r2, (c2, o2)) = client_add_invitation-runs w s inv x i e l u g hi in
    let w3 = record w {
      clients = h2;
      invitations = update w.invitations inv (some (one_more i));
      grants = [];
    } in
    let (h3, r3, (c3, o3)) =
      client_add_invitation-runs w3 t inv y (one_more i) (o2 t o ∙ f) m (rw (same_pointer inv) refl)
        refl hi in
    let hx = invited-HasInvitation x inv vx in
    let hy = invited-HasInvitation y inv vy in
    let w4 = record w3 {
      clients = h3;
      invitations = update w3.invitations inv (some (one_more (one_more i)));
    } in
    let (h4, k4, r4, (c4, o4), (j4, q4)) =
      announce-runs again w4 s t inv a role (some hx.0) (some hy.0) (invited x inv) (invited y inv)
        pl (one_more (one_more i)) 1 (o3 s (other_way s t o) ∙ c2) ((invited-SameRest x inv).2 ∙ b)
        c c3 refl (rw (same_pointer inv) refl) (omega (arith, k)) in
    rw (r2, hx.1, r3, hy.1, r4)
      (
        (
          hy.0,
          (
            o4 s (other_way s t o) ∙ (o3 s (other_way s t o) ∙ c2),
            c4,
            λ q z n. o4 q n ∙ (o3 q n ∙ o2 q z),
          ),
          named inv x (invited x inv) (given_id x) (some hx.0) hx.1 hx,
          invited-SameRest x inv,
          named inv y (invited y inv) (given_id y) (some hy.0) hy.1 hy,
          invited-SameRest y inv,
          let (p, gone) = told y.fd pl.name (next_time w.clock).0 hy.0 role w.writes w.sent len in
              (
                p,
                Goes-along y.fd 11 hy.0 (role_number role) (some pl.name) p w.sent w.sent _ _ refl
                    (ap
                      (λ fd.
                        (
                          fd,
                          (proto_send_packet
                              (invited_header (next_time w.clock).0 (some hy.0) role pl.name)
                              (some pl.name) w.writes).1,
                        )
                        ∷ w.sent)
                      (invited-SameRest y inv).0)
                    gone,
              ),
        ),
        (
          j4 ∙ ap (λ n. some (record i { ref_count = n })) (omega (arith, k)),
          λ q n. q4 q n ∙ rw n refl,
        ),
        refl,
        refl,
        refl,
      )
