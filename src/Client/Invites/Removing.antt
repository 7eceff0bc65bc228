-- ===== src/Client/Invites/Removing.antt =====
-- src/client.c: what client_remove_invitation leaves.
use jeux_game_server.Prelude.{
  ℕ, suc, ◌-◌, ◌<◌, ◌≡◌, refl, ap, ◌∙◌, true, false, Option, none, some, ◌==◌, leb, arith,
}
use jeux_game_server.Game.{Status}
use jeux_game_server.World.{
  Ptr, Client, Invitation, World, ok, M, load_client, store_client, load_invitation,
  store_invitation, sem_wait, sem_post, update,
}
use jeux_game_server.World.Changing.{same_pointer, Holds, HoldsTwo, other_way}
use jeux_game_server.Client.Object.{lock_client, unlock_client, client_unref}
use jeux_game_server.Client.Ids.{purge_id, free_id}
use jeux_game_server.Client.Invites.{client_remove_invitation, find_id, holds, unlink}
use jeux_game_server.Invitation.{inv_unref}

pub positive : (n : ℕ) → (suc n == 0) ≡ false
positive n = ground arith

-- A client without the node of an invitation, whose ID is free again.
abbrev pub without : Client → Ptr → ℕ → Client
without x inv n = record (free_id (record x { invite_head = unlink x.invite_head inv }) n) {
  lock = false;
}

purge_id-runs :
    (w : World) (p : Ptr) (x : Client) (n : ℕ)
    → w.clients p ≡ some x
    → x.lock ≡ false
    → n < x.current_id_size
    → (h : Ptr → Option Client) × (purge_id p (some n) w ≡ ok tt (record w { clients = h }))
      × Holds h w.clients p (record (free_id x n) { lock = false })
unfolding purge_id lock_client unlock_client load_client store_client free_id
purge_id-runs w p x n e l z =
    rw (e, l, same_pointer p, fits, same_pointer p)
      (
        update
            (update (update w.clients p (some (record x { lock = true }))) p
              (some (free_id (record x { lock = true }) n)))
            p (some (record (free_id x n) { lock = false })),
        refl,
        (rw (same_pointer p) refl, λ q m. rw m refl),
      )
  where
    fits : leb x.current_id_size n ≡ false
    fits = ground (arith, z)

-- An invitation without a game that is held once.
abbrev pub last_held : Invitation → Ptr → Ptr → Invitation
last_held i s t = record i { ref_count = 1; source = s; target = t; game = none }

module _ (again : Ptr → M Status) where
  pub client_unref-runs :
      (w : World) (p : Ptr) (x : Client) (k : ℕ)
      → w.clients p ≡ some x
      → x.lock ≡ false
      → x.ref_count ≡ suc (suc k)
      → (h : Ptr → Option Client) × (client_unref again p w ≡ ok tt (record w { clients = h }))
        × Holds h w.clients p (record x { lock = false; ref_count = suc k })
  unfolding client_unref lock_client unlock_client load_client store_client
  client_unref-runs w p x k e l c =
      rw (e, l, same_pointer p, c, same_pointer p, positive k)
        (
          update
              (update
                (update w.clients p (some (record x { lock = true; ref_count = suc (suc k) }))) p
                (some (record x { lock = true; ref_count = suc k })))
              p (some (record x { lock = false; ref_count = suc k })),
          refl,
          (rw (same_pointer p) refl, λ q m. rw m refl),
        )

  -- The invitation is held elsewhere as well.
  pub client_remove_invitation-keeps :
      (w : World) (p inv : Ptr) (x : Client) (i : Invitation) (n k : ℕ)
      → w.clients p ≡ some x
      → x.lock ≡ false
      → holds x.invite_head inv ≡ true
      → find_id x.invite_head inv ≡ some n
      → n < x.current_id_size
      → w.invitations inv ≡ some i
      → i.ref_count ≡ suc (suc k)
      → 0 < w.semaphores.invite
      → (h : Ptr → Option Client) × (client_remove_invitation again p inv w
          ≡ ok (some n) (record w {
            clients = h;
            invitations = update w.invitations inv (some (record i { ref_count = suc k }));
          }))
        × Holds h w.clients p (without x inv n)
  unfolding client_remove_invitation inv_unref load_client store_client load_invitation
      store_invitation sem_wait sem_post
  client_remove_invitation-keeps w p inv x i n k e l o f z u c hi =
      let w1 = record w {
        clients = update w.clients p (some (record x { invite_head = unlink x.invite_head inv }));
        invitations = update w.invitations inv (some (record i { ref_count = suc k }));
        semaphores = record w.semaphores { invite = w.semaphores.invite - 1 };
      } in
      let (h, r, (a, b)) =
        purge_id-runs w1 p (record x { invite_head = unlink x.invite_head inv }) n
          (rw (same_pointer p) refl) l z in
      (
        h,
        rw (taken, e, o, u, c, positive k, f, r)
            (ap
              (λ m.
                ok (some n)
                  (record w1 { clients = h; semaphores = record w.semaphores { invite = m } }))
              (omega (arith, hi))),
        (a, λ q m. b q m ∙ rw m refl),
      )
    where
      taken : (w.semaphores.invite == 0) ≡ false
      taken = ground (arith, hi)

  -- The source gives up the last reference to an invitation without a game.
  pub client_remove_invitation-frees :
      (w : World) (p t inv : Ptr) (x y : Client) (i : Invitation) (n a b : ℕ)
      → w.clients p ≡ some x
      → x.lock ≡ false
      → x.ref_count ≡ suc (suc a)
      → holds x.invite_head inv ≡ true
      → find_id x.invite_head inv ≡ some n
      → n < x.current_id_size
      → w.clients t ≡ some y
      → y.lock ≡ false
      → y.ref_count ≡ suc (suc b)
      → (p == t) ≡ false
      → w.invitations inv ≡ some (last_held i p t)
      → 0 < w.semaphores.invite
      → (h : Ptr → Option Client) × (m : Ptr → Option Invitation) × (client_remove_invitation again
            p inv w
          ≡ ok (some n) (record w { clients = h; invitations = m }))
        × HoldsTwo h w.clients p
            (without (record x { ref_count = suc a }) inv n)
            t
            (record y { lock = false; ref_count = suc b })
        × (m inv ≡ none)
        × ((q : Ptr) → (inv == q) ≡ false → m q ≡ w.invitations q)
  unfolding free_id client_remove_invitation inv_unref load_client store_client load_invitation
      store_invitation sem_wait sem_post
  client_remove_invitation-frees w p t inv x y i n a b e l c o f z e' l' c' d u hi =
      let w0 = record w {
        clients = update w.clients p (some (record x { invite_head = unlink x.invite_head inv }));
        invitations = update w.invitations inv (some (record (last_held i p t) { ref_count = 0 }));
        semaphores = record w.semaphores { invite = w.semaphores.invite - 1 };
      } in
      let (h1, r1, (a1, b1)) =
        client_unref-runs w0 p (record x { invite_head = unlink x.invite_head inv }) a
          (rw (same_pointer p) refl) l c in
      let (h2, r2, (a2, b2)) =
        client_unref-runs (record w0 { clients = h1 }) t y b (b1 t d ∙ (rw d e')) l' c' in
      let m =
        update (update w.invitations inv (some (record (last_held i p t) { ref_count = 0 }))) inv
          none in
      let (h3, r3, (a3, b3)) =
        purge_id-runs (record w0 { clients = h2; invitations = m }) p
          (record x { lock = false; ref_count = suc a; invite_head = unlink x.invite_head inv }) n
          (b2 p (other_way p t d) ∙ a1) refl z in
      (
        h3,
        m,
        rw (taken, e, o, u, r1, r2, f, r3)
            (ap
              (λ k. ok (some n) (record w0 {
                clients = h3;
                invitations = m;
                semaphores = record w.semaphores { invite = k };
              }))
              (omega (arith, hi))),
        (a3, b3 t d ∙ a2, λ q j k. b3 q j ∙ (b2 q k ∙ (b1 q j ∙ rw j refl))),
        rw (same_pointer inv) refl,
        λ q j. rw j refl,
      )
    where
      taken : (w.semaphores.invite == 0) ≡ false
      taken = ground (arith, hi)
