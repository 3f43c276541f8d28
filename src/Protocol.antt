-- ===== src/Protocol.antt =====
-- The class cRTSPprotocol of my_rtsp_client/cRTSPprotocol.h and my_rtsp_client/cRTSPprotocol.cpp: its
-- reply structures, and the buffer in which requests are put together.
pub mod Buffer
pub mod Build
pub mod Room
pub mod Lines
pub mod Sdp
pub mod Transport
pub mod Reply
pub mod Tests
use canok_rtsp_client.Base.{
  ℕ, zero, suc, ◌+◌, ltb, if◌then◌else◌, Bool, true, false, Option, none, some, Bytes, List, [],
  ◌∷◌, length, set, replicate,
}
use canok_rtsp_client.Base.Int.{ℤ, pos}
use canok_rtsp_client.Base.Memory.{memcpy}
use canok_rtsp_client.Base.Outcome.{M, ◌>>=◌, ◌>>◌, pure, get, modify, or_fault, done}
use canok_rtsp_client.Macros.{ret_sucess, ret_err}

-- `MEDIA_SESSION`; `control_path` is `none` for NULL.
pub record MediaSession : Type 0 where
  pub control_path : Option Bytes
  pub multiplex_rtcp_with_rtp : Bool

-- What `parse` writes of `SETUP_INFO`; `session_id` is the string in the array of 64 bytes.
pub record SetupInfo : Type 0 where
  pub server_port_num : ℕ
  pub session_id : Bytes

-- `REPLY_INFO`, with the one media session in use.
pub record ReplyInfo : Type 0 where
  pub respond_code : ℕ
  pub media : MediaSession
  pub setup : SetupInfo

pub data RequestType : Type 0 where
  request_option request_describe request_setup request_play request_pause request_teardown :
      RequestType

-- The members for the request in the making: `mSendbuf`, `mSendLen` and `mSendOffset`.
pub record SendBuffer : Type 0 where
  pub send_buf : Bytes
  pub send_len : ℕ
  pub send_offset : ℕ

-- The constructor; `raw` is what malloc gives.
unfoldable pub create : ℕ → Bytes → SendBuffer
create len raw = record { send_buf = raw; send_len = len; send_offset = 0 }

unfoldable pub begain_cmd : M SendBuffer ℤ
begain_cmd s = done ret_sucess (record s { send_buf = replicate s.send_len 0; send_offset = 0 })

-- `mSendbuf[i] = b`.
pub write_byte : ℕ → ℕ → M SendBuffer (Unit {0})
write_byte i b s =
    (or_fault (if ltb i (length s.send_buf) then some (set s.send_buf i b) else none)
        >>= (λ bytes. modify (λ s. record s { send_buf = bytes })))
      s

pub add_line : Bytes → ℕ → ℕ → M SendBuffer ℤ
unfolding write_byte
add_line buf buflen at = do
  s ← get
  bytes ← or_fault (memcpy s.send_buf at buf (pos buflen))
  modify (λ s. record s { send_buf = bytes })
  write_byte (at + buflen) b'\r'
  write_byte (at + buflen + 1) b'\n'
  modify (λ s. record s { send_offset = at + (buflen + 2) })
  pure ret_sucess

-- `add_line_cmd` on the `buflen` bytes at `buf`.
unfoldable pub add_line_cmd : Bytes → ℕ → M SendBuffer ℤ
unfolding add_line
add_line_cmd buf buflen s =
    if ltb s.send_len (s.send_offset + buflen + 2)
    then done ret_err s
    else add_line buf buflen s.send_offset s

unfoldable pub end_cmd : M SendBuffer ℤ
unfolding write_byte
end_cmd = do
  s ← get
  write_byte s.send_offset b'\r'
  write_byte (s.send_offset + 1) b'\n'
  modify (λ s. record s { send_offset = s.send_offset + 2 })
  pure ret_sucess
