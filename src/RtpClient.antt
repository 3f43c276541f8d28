-- ===== src/RtpClient.antt =====
-- The class cRTPClient of my_rtsp_client/cRTPClient.h and my_rtsp_client/cRTPClient.cpp: RTP headers,
-- loss counting, and the bodies of the reading and the parsing thread. Sockets and threads are events
-- from outside: a datagram received is an argument of `read_step`.
pub mod Samples
pub mod Header
pub mod Loss
pub mod Parse
pub mod Pass
pub mod Stream
pub mod Single
pub mod Reader
pub mod Lifecycle
pub mod Threads
mod Tests
pub mod Reassembly
use canok_rtsp_client.Base.{
  ℕ, ◌+◌, ◌*◌, ◌==◌, ltb, if◌then◌else◌, ◌&&◌, Bool, true, false, Option, none, some, Bytes, ◌∷◌,
  drop, length, min,
}
use canok_rtsp_client.Base.Int.{ℤ, pos, negsuc, ◌-ℤ◌, ◌+ℤ◌}
use canok_rtsp_client.Base.Memory.{memcpy}
use canok_rtsp_client.Base.Outcome.{M, done, fault, ◌>>=◌, ◌>>◌, pure, get, or_fault, zoom}
use canok_rtsp_client.Macros.{
  left_char_bit_get, little_make_unint16, little_make_unint32, ret_sucess, ret_err,
}
use canok_rtsp_client.Queue.{CQueue, Lease, create, push, pop, getbuffer, releasebuffer}
use canok_rtsp_client.H264.{H264Rtp, parse_payload}

-- `RTP_PACK_HEADER_INFO`.
pub record RtpPackHeaderInfo : Type 0 where
  pub version : ℕ
  pub marker : ℕ
  pub payload_type : ℕ
  pub sequence_number : ℕ
  pub time_stamp : ℕ
  pub ssrc : ℕ

-- The fragment buffer of the parser that `pRTPParse` points to. The parser's `pQueH264` is the
-- client's own queue, so the queue stands once, in the client.
pub record FuBuffer : Type 0 where
  pub buffer : Bytes
  pub offset : ℕ
  pub len : ℕ

-- The object's state. `rtp_parse` is `none` while `pRTPParse` is NULL.
pub record RtpClient : Type 0 where
  pub que_net : CQueue
  pub que_h264 : CQueue
  pub rtp_parse : Option FuBuffer
  pub last_rtp_info : RtpPackHeaderInfo
  pub read : Bool
  pub parsing : Bool
  pub fist_sequence_number : ℕ
  pub lost_count : ℤ

abbrev pub zero_info : RtpPackHeaderInfo
zero_info = record {
  version = 0;
  marker = 0;
  payload_type = 0;
  sequence_number = 0;
  time_stamp = 0;
  ssrc = 0;
}

-- The constructor, then the two queues of `rtp_init`; `raw_net` and `raw_h264` are what malloc gives
-- to their slots.
unfoldable pub new_queues : (ℕ → ℤ × Bytes) → (ℕ → ℤ × Bytes) → RtpClient
new_queues raw_net raw_h264 = record {
  que_net = create 300 1500 raw_net;
  que_h264 = create 50 (512 * 1024) raw_h264;
  rtp_parse = none;
  last_rtp_info = zero_info;
  read = false;
  parsing = false;
  fist_sequence_number = 0;
  lost_count = pos 0;
}

-- `mbParse` and `mbRead`, which the loops of the threads test.
abbrev pub set_running : Bool → RtpClient → RtpClient
set_running b c = record c { read = b; parsing = b }

-- What `rtp_stop` does to the shared object before it waits for the threads.
abbrev pub reset_flags : RtpClient → RtpClient
reset_flags c = record c { read = false; parsing = false }

-- The fields of a header whose twelve bytes are there; fewer bytes of memory are a fault.
pub read_header : Bytes → Option RtpPackHeaderInfo
read_header (b0 ∷ b1 ∷ b2 ∷ b3 ∷ b4 ∷ b5 ∷ b6 ∷ b7 ∷ b8 ∷ b9 ∷ b10 ∷ b11 ∷ rest) = some (record {
  version = left_char_bit_get b0 0 2;
  marker = left_char_bit_get b1 0 1;
  payload_type = left_char_bit_get b1 1 7;
  sequence_number = little_make_unint16 b2 b3;
  time_stamp = little_make_unint32 b4 b5 b6 b7;
  ssrc = little_make_unint32 b8 b9 b10 b11;
})
read_header _ = none

-- `set_header_info` on the header at `pHeader` (`none` for NULL) and the structure before the call.
unfoldable pub set_header_info :
    {S : Type 0} → Option Bytes → RtpPackHeaderInfo → M S (ℤ × RtpPackHeaderInfo)
unfolding read_header left_char_bit_get little_make_unint16 little_make_unint32
set_header_info none info = pure (ret_err, info)
set_header_info (some mem) info = do i ← or_fault (read_header mem); pure (ret_sucess, i)

-- `new cH264RTP(pQueNet, pQueH264)` with the default buffer length; `raw` is what malloc gives.
abbrev pub new_fu_buffer : Bytes → FuBuffer
new_fu_buffer raw = record { buffer = raw; offset = 0; len = 1024 * 512 }

pub make_parser : Bytes → RtpPackHeaderInfo → Option FuBuffer → Option FuBuffer
make_parser raw info (some p) = some p
make_parser raw info none = if info.payload_type == 96 then some (new_fu_buffer raw) else none

-- The branch of the first frame.
pub check_first : Bytes → RtpPackHeaderInfo → M RtpClient Bool
unfolding make_parser
check_first raw info c = done true (record c {
  fist_sequence_number = info.sequence_number;
  last_rtp_info = info;
  rtp_parse = make_parser raw info c.rtp_parse;
})

-- `mlostCount += seq - 1 - last`, in `int`, unless `seq - last == 1`.
pub count_lost : ℕ → ℕ → ℤ → ℤ
count_lost seq last lost = if seq == last + 1 then lost else lost +ℤ (pos seq -ℤ pos 1 -ℤ pos last)

pub check_next : RtpPackHeaderInfo → M RtpClient Bool
unfolding count_lost
check_next info c =
    if info.ssrc == c.last_rtp_info.ssrc && info.payload_type == c.last_rtp_info.payload_type
    then done true (record c {
      lost_count = count_lost info.sequence_number c.last_rtp_info.sequence_number c.lost_count;
      last_rtp_info = info;
    })
    else done false c

unfoldable pub check_header : Bytes → RtpPackHeaderInfo → M RtpClient Bool
unfolding check_first check_next
check_header raw info c =
    if c.fist_sequence_number == 0 then check_first raw info c else check_next info c

abbrev pub put_net : CQueue → RtpClient → RtpClient
put_net q c = record c { que_net = q }

abbrev pub put_h264 : CQueue → RtpClient → RtpClient
put_h264 q c = record c { que_h264 = q }

-- The parser object, with the client's queue in place.
abbrev pub load : FuBuffer → RtpClient → H264Rtp
load p c = record {
  fu_buffer = p.buffer;
  fu_buffer_offset = p.offset;
  fu_buffer_len = p.len;
  que_h264 = c.que_h264;
}

abbrev pub store : H264Rtp → RtpClient → RtpClient
store h c = record c {
  que_h264 = h.que_h264;
  rtp_parse =
      some (record { buffer = h.fu_buffer; offset = h.fu_buffer_offset; len = h.fu_buffer_len });
}

-- `if(pRTPParse) pRTPParse->parse_payload(pData + 12, dataLen - 12)`.
pub parse_with : Option FuBuffer → Bytes → ℤ → M RtpClient ℤ
parse_with none mem len = pure ret_sucess
parse_with (some p) mem len = zoom (load p) store (parse_payload mem len)

-- The packet in a leased slot of the net queue. `dataLen` may be below 12.
pub parse_leased : Bytes → RtpPackHeaderInfo → Bytes → ℤ → M RtpClient (Unit {0})
unfolding check_header parse_with set_header_info
parse_leased raw garbage mem data_len = do
  (ret, info) ← set_header_info (some mem) garbage
  ok ← check_header raw info
  c ← get
  _ ← if ok then parse_with c.rtp_parse (drop 12 mem) (data_len -ℤ pos 12) else pure ret_sucess
  pure tt

-- `pQueNet->releasebuffer(index)`.
pub release_net : ℤ → M RtpClient ℕ
release_net i = zoom (λ c. c.que_net) put_net (releasebuffer i)

-- Where the index is below 0 there is no packet.
pub parse_lease : Bytes → RtpPackHeaderInfo → Lease → Option Bytes → ℤ → M RtpClient ℤ
unfolding parse_leased release_net
parse_lease raw garbage l (some mem) (pos i) = do
  parse_leased raw garbage mem l.plen
  _ ← release_net (pos i)
  pure ret_sucess
parse_lease raw garbage l _ (pos i) = λ c. fault
parse_lease raw garbage l _ (negsuc i) = pure ret_sucess

-- `parse()`. `garbage` is the uninitialised local `rtpInfo`, `raw` what malloc gives to a new parser.
unfoldable pub parse : Bytes → RtpPackHeaderInfo → M RtpClient ℤ
unfolding parse_lease
parse raw garbage = do
  l ← zoom (λ c. c.que_net) put_net getbuffer
  parse_lease raw garbage l l.pdata l.index

-- `if(ret > 0) pQueNet->push(buffer, ret)`.
pub push_received : ℕ → Bytes → M RtpClient (Unit {0})
push_received ret b =
    if ltb 0 ret
    then zoom (λ c. c.que_net) put_net (push (some b) (pos ret)) >>= (λ _. pure tt)
    else pure tt

-- One round of `read_thread`. The datagram's first 2000 bytes are received into an array of 1500;
-- `none` is a receive that fails.
unfoldable pub read_step : Bytes → Option Bytes → M RtpClient (Unit {0})
unfolding push_received
read_step buffer none = pure tt
read_step buffer (some datagram) =
    or_fault (memcpy buffer 0 datagram (pos (min 2000 (length datagram))))
    >>= push_received (min 2000 (length datagram))

-- The client's side: the frame queue.
unfoldable pub rtp_request_frame_buffer : M RtpClient Lease
rtp_request_frame_buffer = zoom (λ c. c.que_h264) put_h264 getbuffer

unfoldable pub rtp_release_buffer : ℤ → M RtpClient ℕ
rtp_release_buffer i = zoom (λ c. c.que_h264) put_h264 (releasebuffer i)

unfoldable pub rtp_get_frame : Option Bytes → ℤ → M RtpClient (ℤ × Option Bytes)
rtp_get_frame buf len = zoom (λ c. c.que_h264) put_h264 (pop buf len)
