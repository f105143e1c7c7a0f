-- ===== src/Examples/Rings.antt =====
-- What the theorems of Rpc say of small rings.
use pokemon_simulator_server.Base.{refl, [], ◌∷◌, integer_eq, arith, IsSorted, nat_order}
use pokemon_simulator_server.Rpc.Ring.{empty_manager, ring_index}
use pokemon_simulator_server.Rpc.Ring.Search.{get_or}
use pokemon_simulator_server.Rpc.Ring.Laws.{IsRing}
use pokemon_simulator_server.Rpc.Ring.Lookup.{IsSuccessor, ring_index-IsSuccessor}

empty-IsRing : IsRing empty_manager
empty-IsRing = record { sorted = tt; points = tt; size = refl; named = tt }

IsSorted-ring : IsSorted nat_order (3 ∷ 7 ∷ 9 ∷ [])
unfolding nat_order
IsSorted-ring = ((refl, (refl, tt)), ((refl, tt), (tt, tt)))

ring_index-IsSuccessor_example :
    IsSuccessor (3 ∷ 7 ∷ 9 ∷ []) 5 (get_or (3 ∷ 7 ∷ 9 ∷ []) (ring_index (3 ∷ 7 ∷ 9 ∷ []) 5) 0)
ring_index-IsSuccessor_example =
    ring_index-IsSuccessor (3 ∷ 7 ∷ 9 ∷ []) IsSorted-ring 5 (omega arith)
