-- ===== src/H264.antt =====
-- The class cH264RTP of my_rtsp_client/cH264RTP.h and my_rtsp_client/cH264RTP.cpp, over the base
-- class of my_rtsp_client/cRTPParse.h: it takes the payloads of RTP packets apart and puts whole
-- H.264 NAL units into a CQueue.
pub mod Kept
pub mod Branches
pub mod Collect
pub mod Fragments
pub mod Reassembly
pub mod Safety
mod Tests
use Prim.Native.Nat.{bit_and, bit_or}
use canok_rtsp_client.Base.{
  ℕ, zero, suc, ◌+◌, ◌-◌, ◌==◌, leb, ltb, if◌then◌else◌, not, ◌&&◌, Option, none, some, Bytes, List,
  [], ◌∷◌, get_elem?, drop, length,
}
use canok_rtsp_client.Base.Int.{ℤ, pos, negsuc, ◌-ℤ◌, ◌+ℤ◌, ltb_ℤ, pos_part}
use canok_rtsp_client.Base.Memory.{memcpy}
use canok_rtsp_client.Base.Outcome.{
  M, done, waits, fault, ◌>>=◌, ◌>>◌, pure, get, modify, or_fault, zoom,
}
use canok_rtsp_client.Macros.{left_char_bit_get, ret_sucess}
use canok_rtsp_client.Queue.{CQueue, push}

-- `enum NAL_TYPE`.
pub data NalType : Type 0 where
  fu_a fu_b single undefined : NalType

-- The object: `fu_buffer` is the array at `mFUBuffer`, `que_h264` the queue at `pQueH264`.
pub record H264Rtp : Type 0 where
  pub fu_buffer : Bytes
  pub fu_buffer_offset : ℕ
  pub fu_buffer_len : ℕ
  pub que_h264 : CQueue

-- The constructor. `raw` is what malloc gives; a short buffer is only reported.
unfoldable pub create : CQueue → ℕ → Bytes → H264Rtp
create que_h264 buffer_len raw = record {
  fu_buffer = raw;
  fu_buffer_offset = 0;
  fu_buffer_len = buffer_len;
  que_h264 = que_h264;
}

-- The byte `i` places after a pointer.
pub byte_at : Bytes → ℕ → M H264Rtp ℕ
byte_at mem i = or_fault (get_elem? mem i)

-- `get_nal_type` on the first byte of a payload.
unfoldable pub get_nal_type : ℕ → NalType
unfolding left_char_bit_get
get_nal_type b =
    let nal_type = left_char_bit_get b 3 5 in
    if leb 1 nal_type && leb nal_type 23
    then single
    else if nal_type == 28
    then fu_a
    else if nal_type == 29
    then fu_b
    else undefined

abbrev put_que : CQueue → H264Rtp → H264Rtp
put_que q s = record s { que_h264 = q }

-- `pQueH264->push(mem, len)`.
pub push_h264 : Bytes → ℤ → M H264Rtp ℤ
push_h264 mem len = zoom (λ s. s.que_h264) put_que (push (some mem) len)

-- `pQueH264->push(mFUBuffer, mFUBufferOffset); mFUBufferOffset = 0;`.
pub flush : M H264Rtp (Unit {0})
unfolding push_h264
flush = do
  s ← get
  _ ← push_h264 s.fu_buffer (pos s.fu_buffer_offset)
  modify (λ s. record s { fu_buffer_offset = 0 })

-- `memcpy(mFUBuffer + mFUBufferOffset, src, len); mFUBufferOffset += len;`.
pub append : Bytes → ℤ → M H264Rtp (Unit {0})
append src len = do
  s ← get
  b ← or_fault (memcpy s.fu_buffer s.fu_buffer_offset src len)
  modify (λ s. record s { fu_buffer = b; fu_buffer_offset = s.fu_buffer_offset + pos_part len })

-- The first branch of `parse_FU_A`.
pub fu_start : ℕ → Bytes → ℤ → M H264Rtp (Unit {0})
unfolding flush append
fu_start nal payload len = do
  s ← get
  if s.fu_buffer_offset == 0 then pure tt else flush
  append (nal ∷ []) (pos 1)
  append payload len

-- The second branch.
pub fu_end : Bytes → ℤ → M H264Rtp (Unit {0})
unfolding flush append
fu_end payload len = do append payload len; flush

-- The last branch: what does not fit is dropped.
pub fu_middle : Bytes → ℤ → M H264Rtp (Unit {0})
unfolding flush append
fu_middle payload len = do
  s ← get
  if ltb_ℤ (pos s.fu_buffer_len) (pos s.fu_buffer_offset +ℤ len)
      then append payload (pos s.fu_buffer_len -ℤ pos s.fu_buffer_offset) >> flush
      else append payload len

-- The byte `nal` of `parse_FU_A`.
unfoldable pub fu_nal : ℕ → ℕ → ℕ
fu_nal fu_indicator fu_header = bit_or (bit_and fu_indicator 0xe0) (bit_and fu_header 0x1f)

-- The test of the start bit, then of the end bit.
pub fu_branch : ℕ → ℕ → Bytes → ℤ → M H264Rtp (Unit {0})
unfolding fu_start fu_end fu_middle
fu_branch fu_header nal h264_data h264_data_len =
    if not (bit_and fu_header 0x80 == 0)
    then fu_start nal h264_data h264_data_len
    else if not (bit_and fu_header 0x40 == 0)
    then fu_end h264_data h264_data_len
    else fu_middle h264_data h264_data_len

unfoldable pub parse_fu_a : Bytes → ℤ → M H264Rtp ℤ
unfolding fu_branch fu_nal byte_at
parse_fu_a load_data data_len = do
  fu_indicator ← byte_at load_data 0
  fu_header ← byte_at load_data 1
  fu_branch fu_header (fu_nal fu_indicator fu_header) (drop 2 load_data) (data_len -ℤ pos 2)
  pure ret_sucess

-- The branches of `parse_payload`. The push's result is not read.
pub parse_by_type : NalType → Bytes → ℤ → M H264Rtp ℤ
unfolding push_h264 parse_fu_a
parse_by_type single mem len = push_h264 mem len >>= λ _. pure ret_sucess
parse_by_type fu_a mem len = parse_fu_a mem len >>= λ _. pure ret_sucess
parse_by_type _ mem len = pure ret_sucess

unfoldable pub parse_payload : Bytes → ℤ → M H264Rtp ℤ
unfolding byte_at get_nal_type parse_by_type
parse_payload mem len = do b ← byte_at mem 0; parse_by_type (get_nal_type b) mem len
