-- ===== src/Tests/WsFrame.antt =====
-- The frames of internal/executor/wsframe.go at concrete inputs.
use post_lite.Base.{Str, codes, ◌≤◌, ◌≡◌, refl, ◌↔◌, true, false, some, [], ◌∷◌, ◌++◌, arith}
use post_lite.Executor.WsFrame.{
  frame_header, MaskKey, apply_mask, no_key, write_frame, frame, panicked, read_full, be_length,
  read_payload, read_checked, read_frame,
}
use post_lite.Executor.WsFrame.RoundTrip.{IsKey, read_frame-write_frame}
use post_lite.Executor.WsFrame.Limits.{IsBounded, read_frame-IsBounded, read_frame-panicked_iff}
use post_lite.Executor.WsFrame.Messages.{
  message, read_message_from, read_message, IsWithin, read_message-IsWithin, pings, pongs,
}

frames : Unit {0}
unfolding frame_header apply_mask write_frame read_full be_length read_frame read_payload
    read_checked read_message_from read_message pings pongs
frames = tt

abbrev key : MaskKey
key = record { k0 = 55; k1 = 250; k2 = 33; k3 = 61 }

key-IsKey : IsKey key
key-IsKey = record { b0 = omega arith; b1 = omega arith; b2 = omega arith; b3 = omega arith }

-- The examples of RFC 6455, section 5.7
frame_tests :
    (write_frame no_key 1 (codes "Hello") false ≡ some (129 ∷ 5 ∷ codes "Hello"))
    × (write_frame key 1 (codes "Hello") true
        ≡ some (129 ∷ 133 ∷ 55 ∷ 250 ∷ 33 ∷ 61 ∷ 127 ∷ 159 ∷ 77 ∷ 81 ∷ 88 ∷ []))
    × (read_frame (129 ∷ 5 ∷ codes "Hello") ≡ frame true 1 (codes "Hello") [])
    × (read_frame (129 ∷ 133 ∷ 55 ∷ 250 ∷ 33 ∷ 61 ∷ 127 ∷ 159 ∷ 77 ∷ 81 ∷ 88 ∷ [])
        ≡ frame true 1 (codes "Hello") [])
    × (read_message (1 ∷ 3 ∷ codes "Hel" ++ 128 ∷ 2 ∷ codes "lo") ≡ message (codes "Hello") [] [])
unfolding frames
frame_tests = (refl, refl, refl, refl, refl)

read_frame-write_frame_example :
    (out : Str) × (write_frame key 1 (codes "Hello") true ≡ some out)
    × (read_frame (out ++ 137 ∷ []) ≡ frame true 1 (codes "Hello") (137 ∷ []))
read_frame-write_frame_example =
    read_frame-write_frame key 1 (codes "Hello") (137 ∷ []) true (omega arith) key-IsKey
      (ground arith) (omega arith)

read_frame-IsBounded_example :
    IsBounded (129 ∷ 5 ∷ codes "Hello") (read_frame (129 ∷ 5 ∷ codes "Hello"))
read_frame-IsBounded_example = read_frame-IsBounded (129 ∷ 5 ∷ codes "Hello")

read_frame-panicked_iff_example :
    (read_frame (130 ∷ 127 ∷ 255 ∷ 0 ∷ 0 ∷ 0 ∷ 0 ∷ 0 ∷ 0 ∷ 1 ∷ []) ≡ panicked) ↔ (128 ≤ 255)
read_frame-panicked_iff_example = read_frame-panicked_iff 130 255 0 0 0 0 0 0 1 [] (ground arith)

read_message-IsWithin_example :
    IsWithin (129 ∷ 5 ∷ codes "Hello") (read_message (129 ∷ 5 ∷ codes "Hello"))
read_message-IsWithin_example = read_message-IsWithin (129 ∷ 5 ∷ codes "Hello")
