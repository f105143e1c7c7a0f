-- ===== src/Room/Restore/Copies.antt =====
-- internal/room/manager.go: what copySelectedPokemon copies.
use pokemon_simulator_server.Base.{
  ◌≡◌, refl, ◌∙◌, String, List, [], ◌∷◌, string_eq, str_eq, lookup, Bool-cases, inl, inr,
  lookup-insert,
}
use pokemon_simulator_server.Protocol.{JsonObject}
use pokemon_simulator_server.Room.Restore.{copy_pokemon, copy_selected_pokemon}

-- The two objects have the same value under each key.
abbrev pub SameObject : JsonObject → JsonObject → Type 0
SameObject a b = (key : String) → lookup key a ≡ lookup key b

copy_pokemon_lem : (pokemon : JsonObject) → SameObject (copy_pokemon pokemon) pokemon
unfolding copy_pokemon lookup
copy_pokemon_lem [] key = refl
copy_pokemon_lem ((k, value) ∷ pokemon) key =
    lookup-insert k key value (copy_pokemon pokemon) ∙ (elim (Bool-cases (str_eq k key)) [
      | inl q ↦ rw q refl
      | inr q ↦ rw q (copy_pokemon_lem pokemon key)
    ])

-- Two teams of the same length whose Pokemon agree one by one.
abbrev pub SameTeam : List JsonObject → List JsonObject → Type 0
SameTeam [] [] = Unit
SameTeam [] (b ∷ more_bs) = ⊥
SameTeam (a ∷ more_as) [] = ⊥
SameTeam (a ∷ more_as) (b ∷ more_bs) = SameObject a b × SameTeam more_as more_bs

-- A copied team has the same Pokemon in the same order, each with the same value under each key.
pub copy_selected_pokemon_lem :
    (team : List JsonObject) → SameTeam (copy_selected_pokemon team) team
unfolding copy_selected_pokemon
copy_selected_pokemon_lem [] = tt
copy_selected_pokemon_lem (pokemon ∷ team) =
    (copy_pokemon_lem pokemon, copy_selected_pokemon_lem team)
