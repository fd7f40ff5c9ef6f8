-- ===== src/Tests/Pools.antt =====
-- lampshade.go: a pool of frames for 3000 bytes, which are two frames.
use plampshade.Base.{◌*◌, ◌≤◌, List, [], ◌∷◌, length}
use plampshade.Pool.{Slice}
use plampshade.Pool.Frames.{
  Call, gets_for_frame, gets, puts, run, new_buffer_pool, AreFor, run-AreFor,
}
use plampshade.Wire.{max_frame_size}

abbrev spare : Slice
spare = record { array = 1 ∷ (2 ∷ (3 ∷ [])); len = 1 }

abbrev calls : List Call
calls = gets ∷ (puts spare ∷ (gets_for_frame ∷ []))

run-AreFor_example :
    AreFor calls (run calls (new_buffer_pool 3000)).1
    × (length (run calls (new_buffer_pool 3000)).0.channel * max_frame_size ≤ 3000)
run-AreFor_example = run-AreFor 3000 calls
