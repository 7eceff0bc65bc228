-- ===== src/Client/Offers/Stuck.antt =====
-- src/client.c: an invitation whose REVOKED packet cannot be sent.
use jeux_game_server.Prelude.{ℕ, ◌-◌, ◌<◌, ◌≡◌, refl, ap, false, Option, none, some, ◌∷◌, ◌==◌}
use jeux_game_server.Game.{Status, failure}
use jeux_game_server.Protocol.{Header, create_header, revoked_pkt, proto_send_packet}
use jeux_game_server.World.{
  Ptr, Client, Invitation, closed_state, World, Run, ok, M, next_time, load_invitation,
  store_invitation, new_header, sem_wait, sem_post, update,
}
use jeux_game_server.World.Changing.{same_pointer, Holds, HoldsTwo, other_way}
use jeux_game_server.Client.Invites.{find_id, find_invitation}
use jeux_game_server.Client.Offers.{
  leave, revoke_closed, client_revoke_invitation, client_decline_invitation,
}
use jeux_game_server.Client.Offers.Touching.{
  taken, back, unlocked, touched, touched-Holds, get-runs, get_id-runs, send-runs,
}
use jeux_game_server.Client.Offers.Accepting.{open_between}
use jeux_game_server.Invitation.{inv_close, inv_get_target}

-- An invitation that was closed before a game began.
abbrev pub closed_between : Invitation → Ptr → Ptr → Invitation
closed_between i s t = record (open_between i s t) { state = closed_state; game = none }

-- The world in which a client's lock was taken and released.
abbrev pub only_touched : World → Ptr → Client → World
only_touched w p x = record w { clients = touched w.clients p x }

-- The header of the packet.
abbrev pub revoked_header : World → Option ℕ → Header
revoked_header w m = create_header (next_time w.clock).0 revoked_pkt m 0 0

abbrev stuck_world : World → Ptr → Ptr → Ptr → Client → Client → Invitation → World
stuck_world w inv s t x y i = record w {
  clients = touched (touched (touched w.clients s x) t y) t (unlocked y);
  invitations = update w.invitations inv (some (closed_between i s t));
  clock = (next_time w.clock).1;
  writes = (proto_send_packet (revoked_header w (find_id y.invite_head inv)) none w.writes).2;
  sent =
      (y.fd, (proto_send_packet (revoked_header w (find_id y.invite_head inv)) none w.writes).1)
      ∷ w.sent;
}

module _ (again : Ptr → M Status) where
  closed-refuses :
      (w : World) (p inv : Ptr) (x : Client) (i : Invitation) (s t : Ptr) (id : ℕ)
      → w.clients p ≡ some x
      → x.lock ≡ false
      → find_invitation x.invite_head id ≡ some inv
      → w.invitations inv ≡ some (closed_between i s t)
      → 0 < w.semaphores.invite_op
      → (client_revoke_invitation again p id w ≡ ok failure (only_touched w p x))
        × (client_decline_invitation again p id w ≡ ok failure (only_touched w p x))
  unfolding client_revoke_invitation client_decline_invitation sem_wait sem_post leave inv_close
      load_invitation
  closed-refuses w p inv x i s t id e l f u h =
      let w1 = record w {
        semaphores = record w.semaphores { invite_op = w.semaphores.invite_op - 1 };
      } in
      rw (taken w h, get-runs w1 p x id e l, f, u)
        (
          ap (λ k. ok failure (record (only_touched w p x) { semaphores = k })) (back w h),
          ap (λ k. ok failure (record (only_touched w p x) { semaphores = k })) (back w h),
        )

  -- The revocation fails with the invitation closed; and so does every later attempt to revoke or
  -- decline it, by the source under its ID and by the target under its own.
  abbrev pub Stuck :
      Ptr → Ptr → Ptr → Client → Client → Invitation → ℕ → ℕ → World → Run Status → Type 0
  Stuck inv s t x y i id m w r =
      (v : World) × (r ≡ ok failure v)
      × HoldsTwo v.clients w.clients s (unlocked x) t (unlocked y)
      × Holds v.invitations w.invitations inv (closed_between i s t)
      × (v.semaphores ≡ w.semaphores)
      × (client_revoke_invitation again s id v ≡ ok failure (only_touched v s (unlocked x)))
      × (client_decline_invitation again s id v ≡ ok failure (only_touched v s (unlocked x)))
      × (client_revoke_invitation again t m v ≡ ok failure (only_touched v t (unlocked y)))
      × (client_decline_invitation again t m v ≡ ok failure (only_touched v t (unlocked y)))

-- For two clients that are not locked and an open invitation that both have under an ID, with the
-- semaphore to be had: when the source revokes it and the REVOKED packet cannot be sent,
-- client_revoke_invitation returns a failure with the invitation closed and both lists as they
-- were, and from then on to revoke or decline it fails for the source and for the target, and
-- changes no list.
pub client_revoke_invitation-Stuck :
    (again : Ptr → M Status) (w : World) (s t inv : Ptr) (x y : Client) (i : Invitation) (id m : ℕ)
    → (s == t) ≡ false
    → w.clients s ≡ some x
    → w.clients t ≡ some y
    → x.lock ≡ false
    → y.lock ≡ false
    → find_invitation x.invite_head id ≡ some inv
    → find_invitation y.invite_head m ≡ some inv
    → w.invitations inv ≡ some (record (open_between i s t) { game = none })
    → (proto_send_packet (revoked_header w (find_id y.invite_head inv)) none w.writes).0 ≡ failure
    → 0 < w.semaphores.invite_op
    → Stuck again inv s t x y i id m w (client_revoke_invitation again s id w)
unfolding client_revoke_invitation revoke_closed sem_wait sem_post leave inv_close inv_get_target
    load_invitation store_invitation new_header
client_revoke_invitation-Stuck again w s t inv x y i id m o e f l n fi fm u z h =
    let w1 = record w {
      semaphores = record w.semaphores { invite_op = w.semaphores.invite_op - 1 };
    } in
    let w2 = record w1 {
      clients = touched w.clients s x;
      invitations = update w.invitations inv (some (closed_between i s t));
    } in
    let v = stuck_world w inv s t x y i in
    let at_s : v.clients s ≡ some (unlocked x) =
      rw (other_way s t o) (touched-Holds w.clients s x).0 in
    let at_t = (touched-Holds (touched w2.clients t y) t (unlocked y)).0 in
    let mine =
      closed-refuses again v s inv (unlocked x) i s t id at_s refl fi (rw (same_pointer inv) refl)
        h in
    let theirs =
      closed-refuses again v t inv (unlocked y) i s t m at_t refl fm (rw (same_pointer inv) refl)
        h in
    (
      v,
      rw
          (
            taken w h,
            get-runs w1 s x id e l,
            fi,
            u,
            fi,
            same_pointer inv,
            get_id-runs w2 t inv y (rw o f) n,
            send-runs
                (record w2 { clients = touched w2.clients t y; clock = (next_time w.clock).1 }) t
                (unlocked y) (revoked_header w (find_id y.invite_head inv)) none
                (touched-Holds w2.clients t y).0 refl,
            z,
          )
          (ap (λ k. ok failure (record v { semaphores = k })) (back w h)),
      (at_s, at_t, λ q a b. rw (a, b) refl),
      (rw (same_pointer inv) refl, λ q a. rw a refl),
      refl,
      mine.0,
      mine.1,
      theirs.0,
      theirs.1,
    )
