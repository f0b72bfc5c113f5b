-- ===== src/Ws/Examples.antt =====
-- src/ws.rs: the theorem on fragments at a concrete text.
use vcmp_rs.Base.{suc, ◌≡◌, ◌<◌, ◌≤◌, ◌⊎◌, List, [], ◌∷◌, some, codes, length}
use vcmp_rs.Ws.{Message, text_message, fragments, collect, size_of, text_data}
use vcmp_rs.Ws.Pieces.{Split}
use vcmp_rs.Ws.Cutting.{joined, message_fragments-Split}

message_fragments-Split_example :
    (ms : List Message) × (collect
        (suc (suc (length (codes "hello"))))
        (some 2)
        (fragments (codes "hello"))
      ≡ some ms)
    × (joined ms ≡ codes "hello")
    × ((length (codes "hello") ≤ size_of (some 2)) × (ms ≡ text_message (codes "hello") ∷ [])
        ⊎ (size_of (some 2) < length (codes "hello"))
          × Split (size_of (some 2)) text_data (codes "hello") ms)
message_fragments-Split_example = message_fragments-Split (some 2) (codes "hello")
