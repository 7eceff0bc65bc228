-- ===== src/Client/Ids.antt =====
-- src/client.c: get_available_id and purge_id. An entry of the array is its own index while the ID
-- is free, and -1 (`none`) while it is taken.
pub mod Entries
pub mod Allot
pub mod Giving
pub mod Restoring
pub mod Lowest
pub mod Least
use jeux_game_server.Prelude.{
  ℕ, zero, suc, ◌+◌, ◌-◌, ◌*◌, ◌/◌, ◌≡◌, Bool, true, false, not, Option, none, some, List, [], ◌∷◌,
  ◌++◌, leb, if◌then◌else◌, set,
}
use jeux_game_server.World.{
  Ptr, Client, World, Run, M, pure, ◌>>=◌, ◌>>◌, fail, and_then, load_client, store_client, granted,
}
use jeux_game_server.Client.Object.{lock_client, unlock_client, ids_from}

-- The loop over the array: the first entry that is not -1, and the array after it is taken.
unfoldable pub take_first : List (Option ℕ) → Option ℕ × List (Option ℕ)
take_first [] = (none, [])
take_first (none ∷ ids) = let (id, rest) = take_first ids in (id, none ∷ rest)
take_first (some id ∷ ids) = (some id, none ∷ ids)

-- The doubled array, once realloc has given it.
unfoldable pub grow_ids : Client → Client
grow_ids c =
    let size = c.current_id_size * 2 in
    record c {
      current_id_size = size;
      available_ids = c.available_ids ++ ids_from (size / 2) (size - size / 2);
    }

unfoldable pub allot_id : Client → Option ℕ × Client
allot_id c = elim (take_first c.available_ids).0 [
  | none ↦ (none, record c { available_ids = (take_first c.available_ids).1 })
  | some id ↦ (
    some id,
    record c { available_ids = (take_first c.available_ids).1; id_usage = c.id_usage + 1 },
  )
]

-- The search and the release of the lock.
allot : Ptr → Client → M (Option ℕ)
allot p c = do store_client p (some (allot_id c).1); unlock_client p; pure (allot_id c).0

-- The branch for a full array. Where realloc fails the lock is kept.
allot_grown : Ptr → Client → M (Option ℕ)
allot_grown p c = do
  given ← granted
  if given then allot p (grow_ids c) else do
    store_client p (some (record c { current_id_size = c.current_id_size * 2; available_ids = [] }))
    pure none

unfoldable pub get_available_id : Ptr → M (Option ℕ)
unfolding allot allot_grown
get_available_id p = do
  lock_client p
  c ← load_client p
  if leb c.current_id_size c.id_usage then allot_grown p c else allot p c

-- Freeing an ID of the array.
unfoldable pub free_id : Client → ℕ → Client
free_id c id = record c {
  available_ids = set c.available_ids id (some id);
  id_usage = c.id_usage - 1;
}

-- An ID out of bounds leaves the lock taken, and -1 is written before the array.
unfoldable pub purge_id : Ptr → Option ℕ → M (Unit {0})
purge_id p none = fail
purge_id p (some id) = do
  lock_client p
  c ← load_client p
  if leb c.current_id_size id
      then pure tt
      else do store_client p (some (free_id c id)); unlock_client p
