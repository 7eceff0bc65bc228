-- ===== src/Main/Options.antt =====
-- src/option_processing.c: what option_processor makes of a command line.
use jeux_game_server.Prelude.{
  ℕ, ◌-◌, ◌%◌, ◌^◌, ◌<◌, ◌⊎◌, arith, ◌≡◌, refl, ap, inl, inr, true, false, Option, none, some, List,
  [], ◌∷◌, ◌++◌, ◌==◌, Bool-cases, Option-cases,
}
use jeux_game_server.Prelude.Int.{ℤ, pos, negsuc, ◌≤ℤ◌}
use jeux_game_server.Game.Text.{Text, atoi}
use jeux_game_server.Main.{
  Opt, Processed, port_given, usage, crash, option_loop, option_processor, to_long, signed32,
  to_int, port_number,
}

-- `-p` with an argument after it.
abbrev pub NamesPort : Opt → Type 0
NamesPort o = ((o.opt == b'p') ≡ true) × ((s : Text) × (o.argument ≡ some s))

abbrev pub AllNamePort : List Opt → Type 0
AllNamePort [] = Unit {0}
AllNamePort (o ∷ opts) = NamesPort o × AllNamePort opts

-- The range of an int.
abbrev pub InInt : ℤ → Type 0
InInt z = (negsuc (2 ^ 31 - 1) ≤ℤ z) × (z ≤ℤ pos (2 ^ 31 - 1))

-- The number that a string names, where an int can hold it, and otherwise some int.
abbrev pub Names : Text → ℤ → Type 0
Names s port = (InInt (atoi s) × (port ≡ atoi s)) ⊎ ((InInt (atoi s) → ⊥) × InInt port)

-- How a command line is processed, by its options.
pub data Processing (opts : List Opt) : Processed → Type 0 where
  no_option : opts ≡ [] → Processing opts usage
  last_port :
      (before : List Opt) (o : Opt) (s : Text)
      → opts ≡ before ++ (o ∷ [])
      → AllNamePort before
      → (o.opt == b'p') ≡ true
      → o.argument ≡ some s
      → (port : ℤ) → Names s port
      → Processing opts (port_given port)
  unknown :
      (before : List Opt) (o : Opt) (after : List Opt)
      → opts ≡ before ++ (o ∷ after)
      → AllNamePort before
      → (o.opt == b'p') ≡ false
      → Processing opts usage
  no_argument :
      (before : List Opt) (o : Opt) (after : List Opt)
      → opts ≡ before ++ (o ∷ after)
      → AllNamePort before
      → (o.opt == b'p') ≡ true
      → o.argument ≡ none
      → Processing opts crash

signed32-InInt : (n : ℕ) → n < 2 ^ 32 → InInt (signed32 n)
signed32-InInt n h = ground arith

to_int-InInt : (z : ℤ) → InInt (to_int z)
to_int-InInt (pos n) = signed32-InInt (n % 2 ^ 32) (omega arith)
to_int-InInt (negsuc n) = signed32-InInt (2 ^ 32 - 1 - n % 2 ^ 32) (omega arith)

to_int-same : (z : ℤ) → InInt z → to_int (to_long z) ≡ z
to_int-same (pos n) h = ground arith
to_int-same (negsuc n) h = ground arith

InInt-cases : (z : ℤ) → InInt z ⊎ (InInt z → ⊥)
InInt-cases z = ground arith

port_number-Names : (s : Text) → Names s (port_number s)
unfolding port_number
port_number-Names s = elim (InInt-cases (atoi s)) [
  | inl h ↦ inl (h, to_int-same (atoi s) h)
  | inr h ↦ inr (h, to_int-InInt (to_long (atoi s)))
]

-- One more option in front.
after_port :
    (o : Opt) (opts : List Opt) (r : Processed)
    → NamesPort o
    → Processing opts r
    → ((opts ≡ []) → ⊥)
    → Processing (o ∷ opts) r
after_port o opts r n (no_option e) h = absurd (h e)
after_port o opts r n (last_port before p s e a b c port d) h =
    last_port (o ∷ before) p s (ap (λ l. o ∷ l) e) (n, a) b c port d
after_port o opts r n (unknown before p after e a b) h =
    unknown (o ∷ before) p after (ap (λ l. o ∷ l) e) (n, a) b
after_port o opts r n (no_argument before p after e a b c) h =
    no_argument (o ∷ before) p after (ap (λ l. o ∷ l) e) (n, a) b c

loop-unknown :
    (port : Option ℤ) (o : Opt) (rest : List Opt)
    → (o.opt == b'p') ≡ false
    → option_loop port (o ∷ rest) ≡ usage
unfolding option_loop
loop-unknown none o rest f = rw (f, option_loop) refl
loop-unknown (some n) o rest f = rw (f, option_loop) refl

loop-crash :
    (port : Option ℤ) (o : Opt) (rest : List Opt)
    → (o.opt == b'p') ≡ true
    → o.argument ≡ none
    → option_loop port (o ∷ rest) ≡ crash
unfolding option_loop
loop-crash none o rest t e = rw (t, e, option_loop) refl
loop-crash (some n) o rest t e = rw (t, e, option_loop) refl

loop-port :
    (port : Option ℤ) (o : Opt) (rest : List Opt) (s : Text)
    → (o.opt == b'p') ≡ true
    → o.argument ≡ some s
    → option_loop port (o ∷ rest) ≡ option_loop (some (port_number s)) rest
unfolding option_loop
loop-port none o rest s t e = rw (t, e, option_loop) refl
loop-port (some n) o rest s t e = rw (t, e, option_loop) refl

-- The loop from an option on, where `go` is the loop after it.
loop_at :
    (port : Option ℤ) (o : Opt) (rest : List Opt)
    → ((s : Text)
        → (o.opt == b'p') ≡ true
        → o.argument ≡ some s
        → Processing (o ∷ rest) (option_loop (some (port_number s)) rest))
    → Processing (o ∷ rest) (option_loop port (o ∷ rest))
loop_at port o rest go = elim (Bool-cases (o.opt == b'p')) [
  | inr f ↦ rw (loop-unknown port o rest f) (unknown [] o rest refl tt f)
  | inl t ↦ elim (Option-cases o.argument) [
    | inl e ↦ rw (loop-crash port o rest t e) (no_argument [] o rest refl tt t e)
    | inr (s, e) ↦ rw (loop-port port o rest s t e) (go s t e)
  ]
]

loop-Processing :
    (port : Option ℤ) (o : Opt) (rest : List Opt)
    → Processing (o ∷ rest) (option_loop port (o ∷ rest))
unfolding option_loop
loop-Processing port o [] =
    loop_at port o [] λ s t e. last_port [] o s refl tt t e (port_number s) (port_number-Names s)
loop-Processing port o (q ∷ rest) = loop_at port o (q ∷ rest) λ s t e.
    after_port o (q ∷ rest) _ (t, (s, e)) (loop-Processing (some (port_number s)) q rest) (λ h. cc)

-- Whatever getopt returns: option_processor succeeds exactly when there is an option, each is -p
-- and each has an argument after it. PORT is then the number that the last one names, where an
-- int can hold it, and otherwise some int. It fails where there is no option, or where an option
-- is another one before any -p at the end of the line; and a -p at the end of the line makes it
-- read through NULL.
pub option_processor-Processing : (opts : List Opt) → Processing opts (option_processor opts)
unfolding option_processor option_loop
option_processor-Processing [] = no_option refl
option_processor-Processing (o ∷ rest) = loop-Processing none o rest
