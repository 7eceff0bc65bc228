-- ===== src/Client/Offers/Creating.antt =====
-- src/invitation.c and src/client.c: what client_ref and inv_create leave.
use jeux_game_server.Prelude.{◌+◌, ◌≡◌, refl, ◌∙◌, true, false, Option, some, [], ◌==◌}
use jeux_game_server.Game.{Role}
use jeux_game_server.World.{
  Ptr, Client, Invitation, World, ok, load_client, store_client, load_invitation, store_invitation,
  granted, calloc, update,
}
use jeux_game_server.World.Changing.{same_pointer, Holds, HoldsTwo, then-HoldsTwo}
use jeux_game_server.Client.Object.{lock_client, unlock_client, client_ref}
use jeux_game_server.Invitation.{inv_ref, inv_create, new_invitation}

-- A client with one reference more.
abbrev pub counted : Client → Client
counted x = record x { ref_count = x.ref_count + 1; lock = false }

client_ref-runs :
    (w : World) (p : Ptr) (x : Client)
    → w.clients p ≡ some x
    → x.lock ≡ false
    → (h : Ptr → Option Client) × (client_ref p w ≡ ok p (record w { clients = h }))
      × Holds h w.clients p (counted x)
unfolding client_ref lock_client unlock_client load_client store_client
client_ref-runs w p x e l =
    rw (e, l, same_pointer p, same_pointer p)
      (
        update
            (update (update w.clients p (some (record x { lock = true }))) p
              (some (record x { lock = true; ref_count = x.ref_count + 1 })))
            p (some (counted x)),
        refl,
        (rw (same_pointer p) refl, λ q n. rw n refl),
      )

-- A new invitation, held once.
abbrev pub held_once : Ptr → Ptr → Role → Role → Invitation
held_once s t rs rt = record (new_invitation s t rs rt) { ref_count = 1 }

pub inv_create-runs :
    (w : World) (s t : Ptr) (rs rt : Role) (x y : Client)
    → (s == t) ≡ false
    → (t == s) ≡ false
    → w.clients s ≡ some x
    → w.clients t ≡ some y
    → x.lock ≡ false
    → y.lock ≡ false
    → w.grants ≡ []
    → (h : Ptr → Option Client) × (k : Ptr → Option Invitation) × (inv_create s t rs rt w
        ≡ ok
            (some w.fresh)
            (record w { clients = h; invitations = k; fresh = w.fresh + 1; grants = [] }))
      × HoldsTwo h w.clients s (counted x) t (counted y)
      × Holds k w.invitations w.fresh (held_once s t rs rt)
unfolding inv_create calloc granted inv_ref load_invitation store_invitation
inv_create-runs w s t rs rt x y n o a b l m g =
    let k =
      update (update w.invitations w.fresh (some (new_invitation s t rs rt))) w.fresh
        (some (held_once s t rs rt)) in
    let w1 = record w { fresh = w.fresh + 1; grants = []; invitations = k } in
    let (f, r, (c, d)) = client_ref-runs w1 s x a l in
    let (h, u, i) = client_ref-runs (record w1 { clients = f }) t y (d t n ∙ b) m in
    (
      h,
      k,
      rw (g, same_pointer w.fresh) (rw (r, u) refl),
      then-HoldsTwo f h w.clients s t (counted x) (counted y) o (c, d) i,
      (rw (same_pointer w.fresh) refl, λ q z. rw z refl),
    )
