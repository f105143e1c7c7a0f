-- ===== src/Room/Game/Select/Teams.antt =====
-- internal/room/game.go: what HandleSelectPokemon stores as a player's team.
use pokemon_simulator_server.Base.{
  ℕ, suc, string_eq, ◌≡◌, ◌↔◌, ◌⊎◌, refl, ◌∙◌, ap, String, Bool, true, false, List, [], ◌∷◌, ℤ,
  arith, All, length, ltb, none, some, lookup, subst, sym, ◌++◌, ◌≤◌, inl, inr, nat_eq_iff,
}
use pokemon_simulator_server.Engine.Instance.{EngineInstance}
use pokemon_simulator_server.Protocol.{
  Pokemon, JsonObject, Value, Ability, float64, not_a_number, GameResponse,
}
use pokemon_simulator_server.Room.Session.{Session, send_response, send_or_drop}
use pokemon_simulator_server.Room.Heap.{field-reply}
use pokemon_simulator_server.Room.GameRoom.{GameRoom}
use pokemon_simulator_server.Room.Env.{Env}
use pokemon_simulator_server.Room.Manager.{Server}
use pokemon_simulator_server.Room.Game.{send_to}
use pokemon_simulator_server.Room.Game.Select.{convert, poke_map, stats_map, select_team}

-- A Pokémon whose ability is a JSON number.
abbrev pub HasAbility : Pokemon → Type 0
HasAbility k = (a : ℤ) × (k.ability ≡ float64 a)

Ability-cases : (a : Ability) → (a ≡ not_a_number) ⊎ ((n : ℤ) × (a ≡ float64 n))
Ability-cases not_a_number = inl refl
Ability-cases (float64 n) = inr (n, refl)

convert-true : (ks : List Pokemon) → (convert ks).1 ≡ true → All HasAbility ks
unfolding convert
convert-true [] h = tt
convert-true (k ∷ ks) h = elim (Ability-cases k.ability) [
  | inl q ↦ absurd (cc (rw (q, convert) at h))
  | inr (n, q) ↦ ((n, q), convert-true ks (rw (q, convert) at h))
]

true-convert : (ks : List Pokemon) → All HasAbility ks → (convert ks).1 ≡ true
unfolding convert
true-convert [] h = refl
true-convert (k ∷ ks) ((n, q), rest) = rw (q, convert) (true-convert ks rest)

convert-full : (ks : List Pokemon) → (convert ks).1 ≡ true → length (convert ks).0 ≡ length ks
unfolding convert
convert-full [] h = refl
convert-full (k ∷ ks) h = elim (Ability-cases k.ability) [
  | inl q ↦ absurd (cc (rw (q, convert) at h))
  | inr (n, q) ↦ rw (q, convert) (ap suc (convert-full ks (rw (q, convert) at h)))
]

full-convert : (ks : List Pokemon) → length (convert ks).0 ≡ length ks → (convert ks).1 ≡ true
unfolding convert
full-convert [] h = refl
full-convert (k ∷ ks) h = elim (Ability-cases k.ability) [
  | inl q ↦ let short = rw (q, convert) at h in absurd (omega (arith, short))
  | inr (n, q) ↦
      let rest = rw (q, convert) at h in rw (q, convert) (full-convert ks (omega (arith, rest)))
]

-- The loop over the selection comes to its end exactly if every ability is a number, and exactly then
-- it has stored a Pokémon for each that it was given.
pub convert_lem :
    (ks : List Pokemon)
    → (((convert ks).1 ≡ true) ↔ All HasAbility ks)
      × (((convert ks).1 ≡ true) ↔ (length (convert ks).0 ≡ length ks))
convert_lem ks = ((convert-true ks, true-convert ks), (convert-full ks, full-convert ks))

by_response :
    (marshals : GameResponse → Bool) (s : Session) (m : GameResponse)
    → (send_response marshals s m).selected_pokemon ≡ s.selected_pokemon
unfolding send_response
by_response marshals s m = ground arith

by_broadcast :
    (s : Session) (m : GameResponse) → (send_or_drop s m).selected_pokemon ≡ s.selected_pokemon
unfolding send_or_drop
by_broadcast s m = ground arith

-- The object that stands for a Pokémon whose ability is n.
pub record IsStored (k : Pokemon) (n : ℤ) (o : JsonObject) : Type 0 where
  pub species : lookup "speciesID" o ≡ some (Value.int k.species_id)
  pub level : lookup "level" o ≡ some (Value.int k.level)
  pub nature : lookup "nature" o ≡ some (Value.int k.nature)
  pub ability : lookup "ability" o ≡ some (Value.int n)
  pub item : lookup "item" o ≡ some (Value.int k.item)
  pub ivs : lookup "ivs" o ≡ some (stats_map k.ivs)
  pub evs : lookup "evs" o ≡ some (stats_map k.evs)
  pub moves : lookup "moves" o ≡ some (Value.int_list k.moves)
  pub keys : length o ≡ 8

-- The objects stand for these Pokémon, one by one.
abbrev pub AreStored : List Pokemon → List JsonObject → Type 0
AreStored [] [] = Unit
AreStored [] (o ∷ os) = ⊥
AreStored (k ∷ ks) [] = ⊥
AreStored (k ∷ ks) (o ∷ os) = ((n : ℤ) × (k.ability ≡ float64 n) × IsStored k n o) × AreStored ks os

poke_map-IsStored : (k : Pokemon) (n : ℤ) → IsStored k n (poke_map k n)
unfolding poke_map lookup
poke_map-IsStored k n = record {
  species = refl;
  level = refl;
  nature = refl;
  ability = refl;
  item = refl;
  ivs = refl;
  evs = refl;
  moves = refl;
  keys = refl;
}

-- The loop stops at the first ability that is no number.
convert-stops :
    (before : List Pokemon) (bad : Pokemon) (after : List Pokemon)
    → All HasAbility before
    → bad.ability ≡ not_a_number
    → let done = convert (before ++ bad ∷ after) in (done.1 ≡ false) × AreStored before done.0
unfolding convert poke_map
convert-stops [] bad after h q = rw (q, convert) (refl, tt)
convert-stops (k ∷ before) bad after ((n, q), h) b =
    let (stopped, stored) = convert-stops before bad after h b in
    rw (q, convert)
      (stopped, ((n, refl, poke_map-IsStored (record k { ability = float64 n }) n), stored))

module _ (env : Env) where
  -- A selection of up to six is refused for an ability that is no number. It has replaced the team of the
  -- player all the same, by the Pokémon before the first such ability, one by one. No room changes, so a
  -- player who was ready stays so, and no game starts.
  pub select_team-refused :
      (e : EngineInstance) (room_id : String) (r : GameRoom) (p : ℕ) (before : List Pokemon)
      (bad : Pokemon) (after : List Pokemon) (v : Server)
      → length (before ++ bad ∷ after) ≤ 6
      → All HasAbility before
      → bad.ability ≡ not_a_number
      → let s = select_team env e room_id r p (before ++ bad ∷ after) v in
        AreStored before (s.0.heap.cell p).selected_pokemon
        × (s.0.manager ≡ v.manager)
        × (s.1 ≡ none)
  unfolding select_team send_to
  select_team-refused e room_id r p before bad after v few h b =
      let team = before ++ bad ∷ after in
      let short : ltb 6 (length team) ≡ false = ground (arith, few) in
      let (stopped, stored) = convert-stops before bad after h b in
      rw (short, stopped)
        (
          subst (AreStored before)
              (sym (
                field-reply (λ s. s.selected_pokemon) by_response by_broadcast env.marshals p _ _ p
                ∙ rw ((nat_eq_iff p p).1 refl) refl))
              stored,
          refl,
          refl,
        )
