-- ===== src/Queue/Frames.antt =====
-- What a CQueue promises: a FIFO of at most `max_frames` frames, each cut to `frame_len` bytes, in
-- which a push on a full queue gives up the oldest frame.
use canok_rtsp_client.Base.{
  ℕ, ◌==◌, if◌then◌else◌, List, [], ◌∷◌, ◌++◌, Option, none, some, Bytes, length, take, tail,
}

abbrev pub Frames : Type 0
Frames = List Bytes

module _ (max_frames frame_len : ℕ) where
  unfoldable pub push : Bytes → Frames → Frames
  push f q = (if length q == max_frames then tail q else q) ++ (take frame_len f ∷ [])

abbrev pub front : Frames → Option Bytes
front [] = none
front (f ∷ q) = some f
