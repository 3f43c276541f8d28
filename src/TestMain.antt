-- ===== src/TestMain.antt =====
-- The program my_rtsp_client/test_main.cpp: it opens a session, writes 300 frames to a file, each behind a
-- start code, and ends the session.
pub mod Frames
mod Tests
use canok_rtsp_client.Base.{
  ℕ, zero, suc, leb, if◌then◌else◌, Bool, true, false, Option, none, some, Bytes, [], ◌∷◌, ◌++◌,
  length, take,
}
use canok_rtsp_client.Base.Int.{ℤ, pos, negsuc}
use canok_rtsp_client.Base.Outcome.{M, fault, ◌>>=◌, ◌>>◌, pure, or_fault}
use canok_rtsp_client.Text.{codes}
use canok_rtsp_client.Net.{Kernel}
use canok_rtsp_client.Queue.{Lease}
use canok_rtsp_client.RtpClient.Lifecycle.{RawMemory}
use canok_rtsp_client.RtspClient.Session.{Session}
use canok_rtsp_client.RtspClient.Api.{
  api_init, api_deinit, api_request_frame_buffer, api_release_buffer,
}

-- The array `nal`.
abbrev pub start_code : Bytes
start_code = 0 ∷ 0 ∷ 0 ∷ 1 ∷ []

-- The bytes that `fwrite(pdata, 1, dataLen, fp_out)` reads; `none` where it reads past their end.
pub frame_at : Bytes → ℤ → Option Bytes
frame_at mem (negsuc n) = none
frame_at mem (pos n) = if leb n (length mem) then some (take n mem) else none

module _ {K : Type 0} where
  -- `if(index >= 0) { ... }`, with what is in the file.
  pub write_frame : Bytes → Lease → Option Bytes → ℤ → M (Session K) Bytes
  unfolding frame_at
  write_frame out l (some mem) (pos i) = do
    frame ← or_fault (frame_at mem l.plen)
    _ ← api_release_buffer (pos i)
    pure (out ++ (start_code ++ frame))
  write_frame out l none (pos i) = λ s. fault
  write_frame out l pdata (negsuc i) = pure out

  pub one_round : Bytes → M (Session K) Bytes
  unfolding write_frame
  one_round out = do l ← api_request_frame_buffer none (pos 0); write_frame out l l.pdata l.index

  -- The loop, with `count` rounds to go.
  unfoldable pub write_frames : ℕ → Bytes → M (Session K) Bytes
  unfolding one_round
  write_frames zero out = pure out
  write_frames (suc count) out = one_round out >>= write_frames count

-- The URL on the command line, or the default one.
pub main_url : Option Bytes → Bytes
main_url none = codes "rtsp://127.0.0.1:8989/stream"
main_url (some url) = url

-- `main` behind the opening of the file. The result of `api_init` is not looked at.
pub record_frames :
    {K : Type 0} → Kernel K → RawMemory → Option Bytes → Bytes → M (Session K) (ℤ × Bytes)
record_frames kernel raw buffer url = do
  _ ← api_init kernel raw buffer url
  out ← write_frames 300 []
  _ ← api_deinit kernel
  pure (pos 0, out)

-- `main`, with the argument that it is given and whether the file for the frames can be opened: what it
-- returns, and what is in the file.
unfoldable pub main :
    {K : Type 0}
    → Kernel K
    → RawMemory
    → Option Bytes
    → Bool
    → Option Bytes
    → M (Session K) (ℤ × Bytes)
unfolding main_url record_frames
main kernel raw buffer opens arg =
    if opens then record_frames kernel raw buffer (main_url arg) else pure (negsuc 0, [])
