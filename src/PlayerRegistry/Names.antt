-- ===== src/PlayerRegistry/Names.antt =====
-- src/player_registry.c: one player for each name.
use jeux_game_server.Prelude.{
  ◌+◌, ◌<◌, ◌≡◌, refl, sym, ◌∙◌, ◌≢◌, ◌⊎◌, inl, inr, Option, none, some, List, [], ◌∷◌, ◌++◌, ◌==◌,
  ==_iff, arith, Bool-cases,
}
use jeux_game_server.Game.Text.{Text}
use jeux_game_server.World.Changing.{same_pointer}
use jeux_game_server.World.{Ptr, Player, World, Run, ok, fault, blocked}
use jeux_game_server.PlayerRegistry.{find_node, preg_register}
use jeux_game_server.PlayerRegistry.Search.{In, Finding, found, missing, find_node-Finding}
use jeux_game_server.PlayerRegistry.Adding.{
  new_player, added_in, known_in, register_new-adds, player_ref-known, added-old, added-new,
}

-- The nodes hold players that are allocated, and no two of them have the same name.
pub record NamesValid (w : World) : Type 0 where
  pub live : (p : Ptr) → In p w.player_registry.nodes → (x : Player) × (w.players p ≡ some x)
  pub old : (p : Ptr) → In p w.player_registry.nodes → p < w.fresh
  pub distinct :
      (p q : Ptr) (x y : Player)
      → In p w.player_registry.nodes
      → In q w.player_registry.nodes
      → w.players p ≡ some x
      → w.players q ≡ some y
      → x.name ≡ y.name
      → p ≡ q

In-append : (p q : Ptr) (nodes : List Ptr) → In p (nodes ++ q ∷ []) → In p nodes ⊎ (p ≡ q)
In-append p q [] (inl e) = inr e
In-append p q [] (inr i) = inl i
In-append p q (n ∷ nodes) (inl e) = inl (inl e)
In-append p q (n ∷ nodes) (inr i) = elim (In-append p q nodes i) [
  | inl j ↦ inl (inr j)
  | inr e ↦ inr e
]

In-last : (q : Ptr) (nodes : List Ptr) → In q (nodes ++ q ∷ [])
In-last q [] = inl refl
In-last q (n ∷ nodes) = inr (In-last q nodes)

-- What preg_register returns: a player of the registry that has the name.
abbrev pub Registered : Text → Run (Option Ptr) → Type 0
Registered name (ok none w) = ⊥
Registered name (ok (some p) w) =
    NamesValid w
    × In p w.player_registry.nodes
    × ((x : Player) × (w.players p ≡ some x) × (x.name ≡ name))
Registered name fault = ⊥
Registered name blocked = ⊥

module _ (w : World) (name : Text) (v : NamesValid w) where
  module _
      (new : (p : Ptr) (x : Player)
        → In p w.player_registry.nodes
        → w.players p ≡ some x
        → x.name ≢ name) where
    added-live :
        (p : Ptr)
        → In p (w.player_registry.nodes ++ w.fresh ∷ [])
        → (x : Player) × ((added_in w name).players p ≡ some x)
    added-live p i = elim (In-append p w.fresh w.player_registry.nodes i) [
      | inl j ↦ let (x, e) = v.live p j in (x, added-old w name p (v.old p j) ∙ e)
      | inr e ↦ (new_player name, rw e (added-new w name))
    ]

    old_player :
        (p : Ptr) (i : In p w.player_registry.nodes) (x : Player)
        → (added_in w name).players p ≡ some x
        → w.players p ≡ some x
    old_player p i x l = sym (added-old w name p (v.old p i)) ∙ l

    last_name :
        (p : Ptr)
        → p ≡ w.fresh
        → (x : Player) → (added_in w name).players p ≡ some x
        → x.name ≡ name
    last_name p e x l = ends (sym (added-new w name) ∙ rw e at l)
      where
        ends : some (new_player name) ≡ some x → x.name ≡ name
        ends h = cc

    older : (p : Ptr) → p < w.fresh → p < w.fresh + 1
    older p h = omega arith

    last : (p : Ptr) → p ≡ w.fresh → p < w.fresh + 1
    last p e = omega arith

    added-distinct :
        (p q : Ptr) (x y : Player)
        → In p (w.player_registry.nodes ++ w.fresh ∷ [])
        → In q (w.player_registry.nodes ++ w.fresh ∷ [])
        → (added_in w name).players p ≡ some x
        → (added_in w name).players q ≡ some y
        → x.name ≡ y.name
        → p ≡ q
    added-distinct p q x y i j l k e = elim (In-append p w.fresh w.player_registry.nodes i) [
      | inl a ↦ elim (In-append q w.fresh w.player_registry.nodes j) [
        | inl b ↦ v.distinct p q x y a b (old_player p a x l) (old_player q b y k) e
        | inr b ↦ absurd (new p x a (old_player p a x l) (e ∙ last_name q b y k))
      ]
      | inr a ↦ elim (In-append q w.fresh w.player_registry.nodes j) [
        | inl b ↦ absurd (new q y b (old_player q b y k) (sym e ∙ last_name p a x l))
        | inr b ↦ a ∙ sym b
      ]
    ]

    added-NamesValid : NamesValid (added_in w name)
    added-NamesValid = record {
      live = added-live;
      old = λ p i. elim (In-append p w.fresh w.player_registry.nodes i) [
        | inl j ↦ older p (v.old p j)
        | inr e ↦ last p e
      ];
      distinct = added-distinct;
    }

    added-Registered : Registered name (ok (some w.fresh) (added_in w name))
    added-Registered = (
      added-NamesValid,
      In-last w.fresh w.player_registry.nodes,
      (new_player name, added-new w name, refl),
    )

  module _ (p : Ptr) (x : Player) (held : In p w.player_registry.nodes)
      (e : w.players p ≡ some x) where
    -- A player after the call is one before it, with the same name.
    known-before :
        (q : Ptr) (y : Player)
        → (known_in w p x).players q ≡ some y
        → (z : Player) × (w.players q ≡ some z) × (z.name ≡ y.name)
    known-before q y l = elim (Bool-cases (p == q)) [
      | inl t ↦ (x, rw (← (==_iff p q).0 t) e, renamed (rw t at l))
      | inr f ↦ (y, rw f at l, refl)
    ]
      where
        renamed : some (record x { ref_count = x.ref_count + 1 }) ≡ some y → x.name ≡ y.name
        renamed h = cc

    known-after :
        (q : Ptr) (z : Player)
        → w.players q ≡ some z
        → (y : Player) × ((known_in w p x).players q ≡ some y)
    known-after q z l = elim (Bool-cases (p == q)) [
      | inl t ↦ (record x { ref_count = x.ref_count + 1 }, rw t refl)
      | inr f ↦ (z, rw f l)
    ]

    known-NamesValid : NamesValid (known_in w p x)
    known-NamesValid = record {
      live = λ q i. let (z, l) = v.live q i in known-after q z l;
      old = v.old;
      distinct = λ q r y z i j l k h.
          let (y', l', m) = known-before q y l in
          let (z', k', n) = known-before r z k in v.distinct q r y' z' i j l' k' (m ∙ (h ∙ sym n));
    }

    known-Registered : x.name ≡ name → Registered name (ok (some p) (known_in w p x))
    known-Registered h = (
      known-NamesValid,
      held,
      (record x { ref_count = x.ref_count + 1 }, rw (same_pointer p) refl, h),
    )

preg_register-found :
    (w : World) (name : Text) (p : Ptr) (x : Player)
    → find_node w.player_registry.nodes name w ≡ ok (some p) w
    → w.players p ≡ some x
    → preg_register name w ≡ ok (some p) (known_in w p x)
unfolding preg_register
preg_register-found w name p x e l = rw (e, player_ref-known w p x l) refl

preg_register-missing :
    (w : World) (name : Text)
    → find_node w.player_registry.nodes name w ≡ ok none w
    → w.grants ≡ []
    → preg_register name w ≡ ok (some w.fresh) (added_in w name)
unfolding preg_register
preg_register-missing w name e m = rw (e, register_new-adds w name m) refl

register-found-or-added :
    (w : World) (name : Text) (r : Run (Option Ptr))
    → NamesValid w
    → w.grants ≡ []
    → find_node w.player_registry.nodes name w ≡ r
    → Finding w name w.player_registry.nodes r
    → Registered name (preg_register name w)
register-found-or-added w name r v m e (found {p} {x} i l h) =
    rw (preg_register-found w name p x e l) (known-Registered w name v p x i l h)
register-found-or-added w name r v m e (missing k) =
    rw (preg_register-missing w name e m) (added-Registered w name v k)

-- Where memory can be had and the registry's players are allocated with distinct names:
-- preg_register returns a player that is in the registry and has the name, whether it was there
-- or is new, and the players are still allocated with distinct names.
pub preg_register-Registered :
    (w : World) (name : Text)
    → NamesValid w
    → w.grants ≡ []
    → Registered name (preg_register name w)
preg_register-Registered w name v m =
    register-found-or-added w name _ v m refl
      (find_node-Finding w name w.player_registry.nodes v.live)
