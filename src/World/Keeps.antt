-- ===== src/World/Keeps.antt =====
-- Relations between the world before a command and after it, one rule for each way to build a
-- command. A command that faults or blocks has no world after it.
use jeux_game_server.Prelude.{Bool, true, false, Option, none, some, if◌then◌else◌}
use jeux_game_server.World.{
  World, Run, ok, fault, blocked, M, pure, ◌>>=◌, and_then, fail, block, read, present,
}

abbrev pub Ends : {A : Type 0} → (World → World → Type 0) → World → Run A → Type 0
Ends R w (ok a w') = R w w'
Ends R w fault = Unit {0}
Ends R w blocked = Unit {0}

pub record Keeps (R : World → World → Type 0) {A : Type 0} (m : M A) : Type 0 where
  pub run : (w : World) → Ends R w (m w)

-- Two relations in a row make a third.
abbrev pub Composes : (R S T : World → World → Type 0) → Type 0
Composes R S T = (u v w : World) → R u v → S v w → T u w

pub Ends-after :
    {B : Type 0} (R S T : World → World → Type 0) (u v : World) (r : Run B)
    → Composes R S T
    → R u v
    → Ends S v r
    → Ends T u r
Ends-after R S T u v (ok b w) c e d = c u v w e d
Ends-after R S T u v fault c e d = tt
Ends-after R S T u v blocked c e d = tt

and_then-Ends :
    {A B : Type 0} (R S T : World → World → Type 0) (w : World) (r : Run A) (f : A → M B)
    → Composes R S T
    → Ends R w r
    → ((a : A) → Keeps S (f a))
    → Ends T w (and_then r f)
and_then-Ends R S T w (ok a w') f c e kf = Ends-after R S T w w' (f a w') c e ((kf a).run w')
and_then-Ends R S T w fault f c e kf = tt
and_then-Ends R S T w blocked f c e kf = tt

module _ {R S T : World → World → Type 0} (c : Composes R S T) where
  pub bind :
      {A B : Type 0} {m : M A} {f : A → M B}
      → Keeps R m
      → ((a : A) → Keeps S (f a))
      → Keeps T (m >>= f)
  bind {m} {f} km kf = record { run = λ w. and_then-Ends R S T w (m w) f c (km.run w) kf }

module _ {R : World → World → Type 0} where
  pub faults : {A : Type 0} → Keeps R (fail {A = A})
  faults = record { run = λ w. tt }

  pub blocks : {A : Type 0} → Keeps R (block {A = A})
  blocks = record { run = λ w. tt }

  pub branch :
      {A : Type 0} (b : Bool) {m n : M A} → Keeps R m → Keeps R n → Keeps R (if b then m else n)
  branch true km kn = km
  branch false km kn = kn

module _ {R : World → World → Type 0} (same : (w : World) → R w w) where
  pub return : {A : Type 0} {a : A} → Keeps R (pure a)
  return = record { run = λ w. same w }

  pub reads : {A : Type 0} {f : World → A} → Keeps R (read f)
  reads = record { run = λ w. same w }

  pub gets : {A : Type 0} (o : Option A) → Keeps R (present o)
  gets none = faults
  gets (some a) = return

pub weaken :
    {R S : World → World → Type 0} {A : Type 0} {m : M A}
    → ((w w' : World) → R w w' → S w w')
    → Keeps R m
    → Keeps S m
weaken {R} {S} {m} h k = record { run = λ w. ends w (m w) (k.run w) }
  where
    ends : {A : Type 0} (w : World) (r : Run A) → Ends R w r → Ends S w r
    ends w (ok a w') e = h w w' e
    ends w fault e = tt
    ends w blocked e = tt

-- What follows a command that keeps a relation.
pub Ends-then :
    {A B : Type 0} (R : World → World → Type 0) (P : Run B → Type 0) (w : World) (r : Run A)
    (f : A → M B)
    → P fault
    → P blocked
    → ((a : A) (w' : World) → R w w' → P (f a w'))
    → Ends R w r
    → P (and_then r f)
Ends-then R P w (ok a w') f pf pb pk e = pk a w' e
Ends-then R P w fault f pf pb pk e = pf
Ends-then R P w blocked f pf pb pk e = pb
