-- ===== src/RtspClient/Session.antt =====
-- The object of the class cRTSPClient, my_rtsp_client/cRTSPClient.h, and `rtsp_request` of
-- my_rtsp_client/cRTSPClient.cpp: one request and its reply.
pub mod Same
pub mod Exchange
pub mod Pieces
pub mod Answers
pub mod Setup
use canok_rtsp_client.Base.{
  ℕ, zero, suc, ◌+◌, ◌-◌, Option, none, some, Bytes, List, [], ◌++◌, length, take, replicate,
}
use canok_rtsp_client.Base.Int.{ℤ, pos, negsuc}
use canok_rtsp_client.Base.Memory.{memcpy}
use canok_rtsp_client.Base.Outcome.{M, done, fault, ◌>>=◌, ◌>>◌, pure, get, modify, or_fault, zoom}
use canok_rtsp_client.Text.{codes}
use canok_rtsp_client.Net.{Kernel, read_socket, write_socket, make_socket_blocking}
use canok_rtsp_client.Protocol.{SendBuffer, ReplyInfo, RequestType}
use canok_rtsp_client.Protocol.Build.{build}
use canok_rtsp_client.Protocol.Reply.{parse}
use canok_rtsp_client.RtpClient.Lifecycle.{RtpObject, Device, call}
use canok_rtsp_client.RtspClient.{Server}

-- `log` is what has been written to the open file `fp_prot_log`, `rtsp_buffer` the bytes at
-- `m_rtsp_buffer`; `send` and `reply` are the members of `pr`, `rtp` the object at `pRTP`. `system` is the
-- system that the program runs on.
pub record Session (K : Type 0) : Type 0 where
  pub server : Server
  pub cseq : ℕ
  pub socket : ℤ
  pub log : Option Bytes
  pub rtsp_buffer : Option Bytes
  pub send : SendBuffer
  pub reply : ReplyInfo
  pub rtp : Option RtpObject
  pub system : K

-- The constructor. What it leaves uninitialised is in the arguments: the address, the bytes of the
-- buffer for requests, and the reply.
unfoldable pub new_session : {K : Type 0} → Server → SendBuffer → ReplyInfo → K → Session K
new_session server send reply k = record {
  server = record server { url = [] };
  cseq = 1;
  socket = negsuc 0;
  log = none;
  rtsp_buffer = none;
  send = send;
  reply = reply;
  rtp = none;
  system = k;
}

-- `if(fp_prot_log) fwrite(...)`.
pub add_log : Bytes → Option Bytes → Option Bytes
add_log bytes none = none
add_log bytes (some text) = some (text ++ bytes)

module _ {K : Type 0} where
  abbrev pub on_system : {A : Type 0} → M K A → M (Session K) A
  on_system = zoom (λ s. s.system) (λ k s. record s { system = k })

  abbrev pub on_server : {A : Type 0} → M Server A → M (Session K) A
  on_server = zoom (λ s. s.server) (λ v s. record s { server = v })

  abbrev pub on_send : {A : Type 0} → M SendBuffer A → M (Session K) A
  on_send = zoom (λ s. s.send) (λ b s. record s { send = b })

  abbrev pub on_reply : {A : Type 0} → M ReplyInfo A → M (Session K) A
  on_reply = zoom (λ s. s.reply) (λ r s. record s { reply = r })

  -- The RTP client with the system in place.
  abbrev pub load : RtpObject → Session K → Device K
  load o s = record { object = o; system = s.system }

  abbrev pub store : Device K → Session K → Session K
  store d s = record s { rtp = some d.object; system = d.system }

  abbrev pub on_object : {A : Type 0} → Option RtpObject → M (Device K) A → M (Session K) A
  on_object none m s = fault
  on_object (some o) m s = zoom (load o) store m s

  -- A method of `pRTP`; a NULL pointer is a fault.
  abbrev pub on_rtp : {A : Type 0} → M (Device K) A → M (Session K) A
  on_rtp m s = on_object s.rtp m s

  pub write_log : Bytes → M (Session K) (Unit {0})
  unfolding add_log
  write_log bytes = modify (λ s. record s { log = add_log bytes s.log })

module _ {K : Type 0} (kernel : Kernel K) where
  pub received : ℕ → Option Bytes → M (Session K) ℕ
  received data_all none = pure data_all
  received data_all (some bytes) = do
    s ← get
    buffer ← or_fault s.rtsp_buffer
    b ← or_fault (memcpy buffer data_all bytes (pos (length bytes)))
    modify (λ s. record s { rtsp_buffer = some b })
    pure (data_all + length bytes)

  -- The loop that reads the reply: `n` reads, behind `dataAll` bytes.
  pub read_reply : ℕ → ℕ → M (Session K) ℕ
  unfolding received
  read_reply zero data_all = pure data_all
  read_reply (suc n) data_all = do
    s ← get
    got ← on_system (call (read_socket kernel s.socket (2048 - data_all)))
    all ← received data_all got
    read_reply n all

  -- `memset(m_rtsp_buffer, 0, RTSP_BUFFER_LEN)`.
  pub clear_buffer : M (Session K) (Unit {0})
  clear_buffer = do
    s ← get
    buffer ← or_fault s.rtsp_buffer
    modify (λ s. record s { rtsp_buffer = some (replicate 2048 0) })

  -- `ret = pr.parse(m_rtsp_buffer, dataAll, request, m_cseq, NULL); m_cseq++`.
  pub parse_reply : ℕ → RequestType → M (Session K) ℤ
  unfolding parse
  parse_reply data_all request = do
    s ← get
    buffer ← or_fault s.rtsp_buffer
    ret ← on_reply (parse buffer data_all request s.cseq)
    modify (λ s. record s { cseq = s.cseq + 1 })
    pure ret

  -- `rtsp_request(buffer, bufferSize, request)`. Both headings in the log are cut to 12 bytes.
  unfoldable pub rtsp_request : Bytes → ℕ → RequestType → M (Session K) ℤ
  unfolding write_log write_socket make_socket_blocking clear_buffer read_reply parse_reply
  rtsp_request buffer size request = do
    write_log (take 12 (codes "c->s:::::::\n"))
    write_log (take size buffer)
    s ← get
    _ ← on_system (call (write_socket kernel s.socket (take size buffer)))
    _ ← on_system (call (make_socket_blocking kernel s.socket 50))
    clear_buffer
    data_all ← read_reply 5 0
    write_log (take 12 (codes "s->c===========\n"))
    s ← get
    b ← or_fault s.rtsp_buffer
    write_log (take data_all b)
    parse_reply data_all request

  -- `begain_cmd`, the lines, `end_cmd`, and `rtsp_request` on the text.
  unfoldable pub send_lines : List Bytes → RequestType → M (Session K) ℤ
  send_lines lines request = do
    _ ← on_send (build lines)
    s ← get
    rtsp_request s.send.send_buf s.send.send_offset request
