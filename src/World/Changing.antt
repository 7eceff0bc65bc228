-- ===== src/World/Changing.antt =====
-- Heaps that differ in one place.
use jeux_game_server.Prelude.{◌≡◌, ◌∙◌, arith, refl, true, false, Option, some, ◌==◌, ==_iff}
use jeux_game_server.World.{Ptr}

pub same_pointer : (p : Ptr) → (p == p) ≡ true
same_pointer p = (==_iff p p).1 refl

-- A heap that differs from another in one object.
abbrev pub Holds : {A : Type 0} → (Ptr → Option A) → (Ptr → Option A) → Ptr → A → Type 0
Holds h g p x = (h p ≡ some x) × ((q : Ptr) → (p == q) ≡ false → h q ≡ g q)

-- A heap that differs from another in two objects.
abbrev pub HoldsTwo :
    {A : Type 0} → (Ptr → Option A) → (Ptr → Option A) → Ptr → A → Ptr → A → Type 0
HoldsTwo h g s x t y =
    (h s ≡ some x) × (h t ≡ some y) × ((q : Ptr) → (s == q) ≡ false → (t == q) ≡ false → h q ≡ g q)

pub then-HoldsTwo :
    {A : Type 0} (f h g : Ptr → Option A) (s t : Ptr) (x y : A)
    → (t == s) ≡ false
    → Holds f g s x
    → Holds h f t y
    → HoldsTwo h g s x t y
then-HoldsTwo f h g s t x y n (a, b) (c, d) = (d s n ∙ a, c, λ q m o. d q o ∙ b q m)

pub other_way : (s t : Ptr) → (s == t) ≡ false → (t == s) ≡ false
other_way s t n = ground arith
