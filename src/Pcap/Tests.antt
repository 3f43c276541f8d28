-- ===== src/Pcap/Tests.antt =====
-- Runs of the reader of capture files on a small file, and its theorems at that file.
use canok_rtsp_client.Base.{
  ◌++◌, ◌≡◌, refl, true, false, Bytes, List, [], ◌∷◌, arith, length, replicate, some,
}
use canok_rtsp_client.Base.Int.{pos}
use canok_rtsp_client.Base.Outcome.{done, fault}
use canok_rtsp_client.Pcap.{
  Pcap, init, get_little_data, little_loop, fread, wanted, read_data, with_head, get_frames,
}
use canok_rtsp_client.Pcap.Records.{Record, IsRecord}
use canok_rtsp_client.Pcap.Playback.{records_bytes, AreRecords, opened, packet, calls, calls-init}

abbrev header : Bytes
header = replicate 24 7

abbrev first : Record
first = record { time = replicate 8 1; sent = replicate 4 2; data_bytes = 5 ∷ 6 ∷ 7 ∷ [] }

abbrev second : Record
second = record { time = replicate 8 3; sent = replicate 4 4; data_bytes = 8 ∷ [] }

abbrev two : List Record
two = first ∷ second ∷ []

first-IsRecord : IsRecord 10 first
first-IsRecord = record {
  time_size = refl;
  sent_size = refl;
  fits = omega arith;
  small = omega arith;
}

two-AreRecords : AreRecords 10 two
two-AreRecords = (
  first-IsRecord,
  (record { time_size = refl; sent_size = refl; fits = omega arith; small = omega arith }, tt),
)

calls-init_example :
    (p : Pcap) × (init (some (header ++ records_bytes two)) false ≡ (pos 0, some p))
    × (calls 2 10 p
        ≡ done
            (packet first ∷ packet second ∷ [])
            (record p { at = length (header ++ records_bytes two) }))
calls-init_example = calls-init header two 10 false refl two-AreRecords

abbrev at_end : Pcap
at_end = record (opened (header ++ records_bytes two) true) {
  at = length (header ++ records_bytes two);
}

-- A packet longer than the caller's buffer is written past its end.
get_frames_overflow : get_frames 1 2 (opened (header ++ records_bytes two) false) ≡ fault
unfolding get_frames fread with_head get_little_data little_loop read_data wanted
get_frames_overflow = refl
