-- ===== src/Client/Offers/Declining.antt =====
-- src/client.c: how client_decline_invitation ends for both clients.
use jeux_game_server.Prelude.{
  arith, ◌<◌, ℕ, suc, ◌+◌, ◌-◌, ◌<◌, ◌≡◌, refl, ◌∙◌, false, none, some, ◌∷◌, ◌==◌,
}
use jeux_game_server.Game.{Status, success, failure}
use jeux_game_server.Protocol.{Sending, create_header, declined_pkt, proto_send_packet}
use jeux_game_server.World.{
  Ptr, Client, Invitation, open_state, closed_state, World, Run, ok, fault, blocked, M, next_time,
  load_invitation, store_invitation, new_header, sem_wait, sem_post, update,
}
use jeux_game_server.World.Changing.{same_pointer, HoldsTwo, other_way}
use jeux_game_server.Client.Ids.{free_id}
use jeux_game_server.Client.Invites.{find_id, find_invitation}
use jeux_game_server.Client.Invites.Removing.{
  without, last_held, client_remove_invitation-keeps, client_remove_invitation-frees,
}
use jeux_game_server.Client.Packets.Going.{Goes, Goes-along, proto_send_packet-Goes}
use jeux_game_server.Client.Offers.{decline_closed, leave, client_decline_invitation}
use jeux_game_server.Invitation.{inv_close, inv_get_source}
use jeux_game_server.Client.Offers.Touching.{
  taken, back, unlocked, touched, find_id-holds, touched-Holds, get-runs, get_id-runs, send-runs,
}

-- The world once the DECLINED packet has gone out to the source.
abbrev after_send : World → Ptr → Client → ℕ → World
after_send w s x n =
    let sending =
      proto_send_packet (create_header (next_time w.clock).0 declined_pkt (some n) 0 0) none
        w.writes in
    record w {
      clients = touched (touched w.clients s x) s (unlocked x);
      clock = (next_time w.clock).1;
      writes = sending.2;
      sent = (x.fd, sending.1) ∷ w.sent;
    }

-- Neither client has the invitation, which is freed, nor the reference that it held.
abbrev pub TakesBack :
    Ptr → Ptr → Ptr → Client → Client → ℕ → ℕ → ℕ → ℕ → World → Run Status → Type 0
TakesBack inv s t x y n id a b w (ok success w') =
    HoldsTwo w'.clients w.clients s (without (record x { ref_count = suc a }) inv n) t
      (record (without y inv id) { ref_count = suc b })
    × (w'.invitations inv ≡ none)
    × ((q : Ptr) → (inv == q) ≡ false → w'.invitations q ≡ w.invitations q)
    × ((p : Sending) × Goes x.fd 14 n 0 none p w.sent w'.sent)
    × (w'.players ≡ w.players)
    × (w'.games ≡ w.games)
    × (w'.semaphores ≡ w.semaphores)
TakesBack inv s t x y n id a b w (ok failure w') = ⊥
TakesBack inv s t x y n id a b w fault = ⊥
TakesBack inv s t x y n id a b w blocked = ⊥

module _ (again : Ptr → M Status) where
  closed-TakesBack :
      (w : World) (s t inv : Ptr) (x y : Client) (i : Invitation) (n id a b : ℕ)
      → (s == t) ≡ false
      → w.clients s ≡ some x
      → w.clients t ≡ some y
      → x.lock ≡ false
      → y.lock ≡ false
      → x.ref_count ≡ suc (suc a)
      → y.ref_count ≡ suc (suc b)
      → find_id x.invite_head inv ≡ some n
      → find_id y.invite_head inv ≡ some id
      → n < x.current_id_size
      → id < y.current_id_size
      → w.invitations inv ≡ some (record (last_held i s t) { ref_count = 2 })
      → 0 < w.semaphores.invite
      → TakesBack inv s t x y n id a b
          (record w { semaphores = record w.semaphores { invite_op = w.semaphores.invite_op + 1 } })
          (decline_closed again t inv w)
  unfolding free_id decline_closed leave inv_get_source load_invitation new_header sem_post
  closed-TakesBack w s t inv x y i n id a b o e f l m ca cb fx fy zx zy u hi =
      let w1 = after_send w s x n in
      let (h2, r2, (a2, b2)) =
        client_remove_invitation-keeps again w1 t inv y (record (last_held i s t) { ref_count = 2 })
          id 0 (rw o f) m (find_id-holds y.invite_head inv id fy) fy zy u refl hi in
      let w2 = record w1 {
        clients = h2;
        invitations = update w.invitations inv (some (record (last_held i s t) { ref_count = 1 }));
      } in
      let (h3, k3, r3, (a3, c3, b3), d3, j3) =
        client_remove_invitation-frees again w2 s t inv (unlocked x) (without y inv id) i n a b
          (b2 s (other_way s t o) ∙ (touched-Holds (touched w.clients s x) s (unlocked x)).0) refl
          ca (find_id-holds x.invite_head inv n fx) fx zx a2 refl cb o (rw (same_pointer inv) refl)
          hi in
      rw
        (
          u,
          get_id-runs w s inv x e l,
          fx,
          send-runs (record w { clients = touched w.clients s x; clock = (next_time w.clock).1 }) s
              (unlocked x) (create_header (next_time w.clock).0 declined_pkt (some n) 0 0) none
              (touched-Holds w.clients s x).0 refl,
          r2,
          r3,
        )
        (
          (a3, c3, λ q j k. b3 q j k ∙ (b2 q k ∙ rw j refl)),
          d3,
          λ q j. j3 q j ∙ rw j refl,
          (
            proto_send_packet (create_header (next_time w.clock).0 declined_pkt (some n) 0 0) none
                w.writes,
            proto_send_packet-Goes x.fd (next_time w.clock).0 declined_pkt n 0 none w.writes w.sent
                (omega arith) (omega arith),
          ),
          refl,
          refl,
          refl,
        )

-- From the world in which the invitation is closed to the one before.
after-TakesBack :
    (w v : World) (s t inv : Ptr) (x y : Client) (n id a b : ℕ) (r : Run Status)
    → ((q : Ptr) → (t == q) ≡ false → v.clients q ≡ w.clients q)
    → ((q : Ptr) → (inv == q) ≡ false → v.invitations q ≡ w.invitations q)
    → v.sent ≡ w.sent
    → v.players ≡ w.players
    → v.games ≡ w.games
    → record v.semaphores { invite_op = v.semaphores.invite_op + 1 } ≡ w.semaphores
    → TakesBack inv s t x
        (unlocked y)
        n
        id
        a
        b
        (record v { semaphores = record v.semaphores { invite_op = v.semaphores.invite_op + 1 } })
        r
    → TakesBack inv s t x y n id a b w r
unfolding free_id
after-TakesBack w v s t inv x y n id a b (ok success w') c i z p g e
      ((k, l, o), d, j, (m, gone), p', g', e') =
    (
      (k, l, λ q f h. o q f h ∙ c q h),
      d,
      λ q f. j q f ∙ i q f,
      (m, Goes-along x.fd 14 n 0 none m v.sent w.sent _ _ z refl gone),
      p' ∙ p,
      g' ∙ g,
      e' ∙ e,
    )
after-TakesBack w v s t inv x y n id a b (ok failure w') c i z p g e h = absurd h
after-TakesBack w v s t inv x y n id a b fault c i z p g e h = absurd h
after-TakesBack w v s t inv x y n id a b blocked c i z p g e h = absurd h

-- An invitation that its target may decline.
abbrev pub offered : Invitation → Ptr → Ptr → Invitation
offered i s t = record (last_held i s t) { ref_count = 2; state = open_state }

pub client_decline_invitation-TakesBack :
    (again : Ptr → M Status) (w : World) (s t inv : Ptr) (x y : Client) (i : Invitation)
    (n id a b : ℕ)
    → (s == t) ≡ false
    → w.clients s ≡ some x
    → w.clients t ≡ some y
    → x.lock ≡ false
    → y.lock ≡ false
    → x.ref_count ≡ suc (suc a)
    → y.ref_count ≡ suc (suc b)
    → find_invitation y.invite_head id ≡ some inv
    → find_id x.invite_head inv ≡ some n
    → find_id y.invite_head inv ≡ some id
    → n < x.current_id_size
    → id < y.current_id_size
    → w.invitations inv ≡ some (offered i s t)
    → 0 < w.semaphores.invite
    → 0 < w.semaphores.invite_op
    → TakesBack inv s t x y n id a b w (client_decline_invitation again t id w)
unfolding client_decline_invitation sem_wait inv_close load_invitation store_invitation
client_decline_invitation-TakesBack again w s t inv x y i n id a b o e f l m ca cb fi fx fy zx zy u
      hi ho =
    let w1 = record w {
      semaphores = record w.semaphores { invite_op = w.semaphores.invite_op - 1 };
    } in
    let w2 = record w1 {
      clients = touched w.clients t y;
      invitations =
          update w.invitations inv (some (record (offered i s t) { state = closed_state }));
    } in
    rw (taken w ho, get-runs w1 t y id f m, fi, u, fi)
      (after-TakesBack w w2 s t inv x y n id a b (decline_closed again t inv w2) (λ q k. rw k refl)
        (λ q k. rw k refl) refl refl refl (back w ho)
        (closed-TakesBack again w2 s t inv x (unlocked y) (record i { state = closed_state }) n id a
          b o (rw (other_way s t o) e) (touched-Holds w.clients t y).0 l refl ca cb fx fy zx zy
          (rw (same_pointer inv) refl) hi))
