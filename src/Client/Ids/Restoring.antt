-- ===== src/Client/Ids/Restoring.antt =====
-- src/client.c: an ID that is given by get_available_id and freed by purge_id.
use jeux_game_server.Prelude.{
  ℕ, suc, ◌+◌, ◌-◌, ◌≡◌, sym, Option-cases, ap, ◌∙◌, Option, none, some, List, [], ◌∷◌, arith, set,
  inl, inr,
}
use jeux_game_server.World.{Client}
use jeux_game_server.Client.Ids.{take_first, allot_id, free_id}
use jeux_game_server.Client.Ids.Entries.{Own}

-- The entry that the search takes is put back.
pub take_first-set :
    (i : ℕ) (ids : List (Option ℕ)) (n : ℕ)
    → Own i ids
    → (take_first ids).0 ≡ some n
    → (k : ℕ) × (n ≡ i + k) × (set (take_first ids).1 k (some n) ≡ ids)
unfolding take_first
take_first-set i [] n o e = cc
take_first-set i (none ∷ ids) n o e =
    let (k, s, r) = take_first-set (i + 1) ids n o e in
    (suc k, omega (arith, s), ap (λ rest. none ∷ rest) r)
take_first-set i (some m ∷ ids) n o e = (0, same m n o.0 e, ap (λ j. j ∷ ids) (sym e))
  where
    same : (m n : ℕ) → m ≡ i → some m ≡ some n → n ≡ i + 0
    same m n a b = ground arith

pub taken_id :
    (c : Client) (n : ℕ) → (allot_id c).0 ≡ some n → (take_first c.available_ids).0 ≡ some n
unfolding allot_id
taken_id c n e = elim (Option-cases (take_first c.available_ids).0) [
  | inl z ↦ absurd (not_given (rw (z, allot_id) at e))
  | inr (m, z) ↦ z ∙ (rw (z, allot_id) at e)
]
  where
    not_given : none ≡ some n → ⊥
    not_given h = cc

-- The client is the one in which the ID was looked for.
pub free_id-allot_id :
    (c : Client) (n : ℕ)
    → Own 0 c.available_ids
    → (allot_id c).0 ≡ some n
    → free_id (allot_id c).1 n ≡ c
unfolding allot_id free_id
free_id-allot_id c n o e =
    let t = taken_id c n e in
    let (k, s, r) = take_first-set 0 c.available_ids n o t in
    rw (t, allot_id)
      (ap (λ l. record c { available_ids = l; id_usage = c.id_usage + 1 - 1 })
          (ap (λ j. set (take_first c.available_ids).1 j (some n)) (at_index k s) ∙ r)
        ∙ ap (λ u. record c { id_usage = u }) (omega arith))
  where
    at_index : (k : ℕ) → n ≡ 0 + k → n ≡ k
    at_index k s = omega (arith, s)
