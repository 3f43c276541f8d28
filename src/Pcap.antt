-- ===== src/Pcap.antt =====
-- The class CpcapPare of my_rtsp_client/Pcapfile.h and my_rtsp_client/Pcapfile.cpp, which reads packets
-- from a capture file. The file is the list of its bytes.
pub mod Records
pub mod Playback
mod Tests
use Prim.Native.Nat.{bit_or}
use canok_rtsp_client.Base.{
  ℕ, zero, suc, ◌+◌, ◌-◌, ◌*◌, ◌%◌, ◌^◌, ltb, leb, if◌then◌else◌, Bool, true, false, Option, none,
  some, Bytes, List, [], ◌∷◌, ◌++◌, get_or, length, take, drop, min,
}
use canok_rtsp_client.Base.Int.{ℤ, pos, negsuc}
use canok_rtsp_client.Base.Outcome.{M, done, waits, fault, pure, ◌>>=◌, ◌>>◌, or_fault, modify, get}

-- The object: `file` is the open file, `at` its position.
pub record Pcap : Type 0 where
  pub file : Bytes
  pub at : ℕ
  pub reloop : Bool

-- `init`: -1 when `fopen` fails, which leaves no file; otherwise 0, and the file's 24 byte header is
-- passed over.
unfoldable pub init : Option Bytes → Bool → ℤ × Option Pcap
init none reloop = (negsuc 0, none)
init (some file) reloop = (pos 0, some (record { file = file; at = 24; reloop = reloop }))

-- The loop of `getLittleData`: the byte `n - 1`, then those below. `unsigned long` wraps at 2 ^ 64.
pub little_loop : ℕ → Bytes → ℕ → ℕ
little_loop zero buf ret = ret
little_loop (suc n) buf ret = little_loop n buf (bit_or (ret * 2 ^ 8 % 2 ^ 64) (get_or buf n 0))

unfoldable pub get_little_data : ℕ → Bytes → ℕ
unfolding little_loop
get_little_data len buf = little_loop len buf 0

-- `fread` of `n` bytes: those that are there.
pub fread : ℕ → M Pcap Bytes
fread n p =
    let bytes = take n (drop p.at p.file) in done bytes (record p { at = p.at + length bytes })

-- The length as the `size_t` that `fread` takes: `datalen` is an int, so from 2 ^ 31 on it is negative.
pub wanted : ℕ → ℕ
wanted datalen = if leb (2 ^ 31) datalen then 2 ^ 64 - 2 ^ 32 + datalen else datalen

-- The data of a packet goes to `buf`, of `size` bytes. The code never looks at `size`: a longer packet
-- is written past the end.
pub read_data : ℕ → ℕ → M Pcap Bytes
unfolding fread wanted
read_data size datalen = fread (wanted datalen) >>= λ bytes.
    if leb (length bytes) size then pure bytes else or_fault none

-- `ret < datalen`, in int.
pub is_short : Bytes → ℕ → Bool
is_short bytes datalen = if leb (2 ^ 31) datalen then false else ltb (length bytes) datalen

-- After a short read: `getFrames` starts again, or returns -1.
pub again_or_end : M Pcap (ℤ × Bytes) → M Pcap (ℤ × Bytes)
again_or_end again p = if p.reloop then again (record p { at = 24 }) else done (negsuc 0, []) p

-- Behind the data.
pub with_data : M Pcap (ℤ × Bytes) → ℕ → Bytes → M Pcap (ℤ × Bytes)
unfolding is_short again_or_end
with_data again datalen bytes =
    if is_short bytes datalen then again_or_end again else pure (pos (length bytes), bytes)

-- Behind the packet's header.
pub with_head : M Pcap (ℤ × Bytes) → ℕ → Bytes → M Pcap (ℤ × Bytes)
unfolding get_little_data read_data again_or_end with_data
with_head again size packethead =
    if ltb (length packethead) 16
    then again_or_end again
    else (read_data size (get_little_data 4 (drop 8 packethead))
        >>= with_data again (get_little_data 4 (drop 8 packethead)))

-- `getFrames(buf, size)`, with the packet that it leaves in `buf`, none for -1. The jumps back run on fuel; without fuel the
-- thread is still at work.
unfoldable pub get_frames : ℕ → ℕ → M Pcap (ℤ × Bytes)
unfolding fread with_head
get_frames zero size = λ p. waits p
get_frames (suc n) size = fread 16 >>= with_head (get_frames n size) size
