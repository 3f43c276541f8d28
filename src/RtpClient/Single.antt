-- ===== src/RtpClient/Single.antt =====
-- Single NAL units through `parse` of my_rtsp_client/cRTPClient.cpp, and packets shorter than a header.
use canok_rtsp_client.Base.{
  ℕ, ◌-◌, ◌<◌, ◌≡◌, refl, sym, ap, subst, ◌∙◌, Bytes, ◌∷◌, ◌++◌, length, take-append, length-append,
  false, true, arith,
}
use canok_rtsp_client.Base.Int.{pos, negsuc, sub_pos_neg}
use canok_rtsp_client.Base.Outcome.{done, fault, pure, bind_fault, zoom_fault}
use canok_rtsp_client.Macros.{ret_sucess}
use canok_rtsp_client.Queue.Frames
use canok_rtsp_client.Queue.Frames.{Frames}
use canok_rtsp_client.Queue.Valid.{Models}
use canok_rtsp_client.Queue.Push.{in_node}
use canok_rtsp_client.Queue.Front.{out_node}
use canok_rtsp_client.H264.{parse_payload, get_nal_type, single}
use canok_rtsp_client.H264.Safety.{parse_payload-single, parse_payload_runt}
use canok_rtsp_client.RtpClient.{
  RtpPackHeaderInfo, RtpClient, FuBuffer, parse, parse_leased, parse_with, load, store,
}
use canok_rtsp_client.RtpClient.Header.{IsHeader, header_bytes}
use canok_rtsp_client.RtpClient.Parse.{
  stale, borrowed, after_check, parse_leased_lem, parse_round_fault,
}
use canok_rtsp_client.RtpClient.Pass.{Takes, Takes-put_net, Checked, Takes-Checked, parse_passes}

-- A single NAL unit in a packet of the stream moves from the network queue to the frame queue in one
-- round of the parsing thread, without the RTP header and without stale bytes of its slot.
pub parse-single :
    (raw : Bytes) (garbage : RtpPackHeaderInfo) (cap width flags : ℕ) (h : RtpPackHeaderInfo)
    (b : ℕ) (d : Bytes) (rest : Frames) (c : RtpClient) (p : FuBuffer) (cap_h264 width_h264 : ℕ)
    (fs : Frames)
    → Models cap width ((header_bytes flags h ++ (b ∷ d)) ∷ rest) c.que_net
    → flags < 64
    → IsHeader h
    → Takes raw h c p
    → get_nal_type b ≡ single
    → Models cap_h264 width_h264 fs c.que_h264
    → (in_node c.que_h264).locked ≡ false
    → (c' : RtpClient) × (parse raw garbage c ≡ done ret_sucess c')
      × Models cap width rest c'.que_net
      × Models cap_h264 width_h264 (Frames.push cap_h264 width_h264 (b ∷ d) fs) c'.que_h264
parse-single raw garbage cap width flags h b d rest c p cap_h264 width_h264 fs m few w takes type
      m_h264 free =
    let behind = stale raw garbage cap width (header_bytes flags h ++ (b ∷ d)) rest c m in
    let (q, run, m') =
      parse_payload-single (load p c) cap_h264 width_h264 fs b (d ++ behind) (length (b ∷ d)) type
        (omega (arith, length-append d behind)) m_h264 free in
    let (c', run', passed) =
      parse_passes raw garbage cap width flags h (b ∷ d) rest c m few w p takes ret_sucess
        (record (load p c) { que_h264 = q }) run in
    (
      c',
      run',
      passed.net,
      subst (Models cap_h264 width_h264 (Frames.push cap_h264 width_h264 (b ∷ d) fs))
          (sym passed.h264)
          (subst (λ u. Models cap_h264 width_h264 (Frames.push cap_h264 width_h264 u fs) q)
            (take-append (b ∷ d) behind (length (b ∷ d)) refl) m'),
    )

-- A datagram shorter than an RTP header is not refused: its header is completed by what the slot of the
-- network queue held before. When that header is one of the stream, and the stale byte behind it has the
-- type of a single NAL unit, `parse` copies a negative length, which is undefined behaviour.
pub parse_runt :
    (raw : Bytes) (garbage : RtpPackHeaderInfo) (cap width flags : ℕ) (h : RtpPackHeaderInfo)
    (b : ℕ) (d f : Bytes) (rest : Frames) (c : RtpClient) (p : FuBuffer) (cap_h264 width_h264 : ℕ)
    (fs : Frames)
    → Models cap width (f ∷ rest) c.que_net
    → length f < 12
    → (out_node c.que_net).bytes ≡ header_bytes flags h ++ (b ∷ d)
    → flags < 64
    → IsHeader h
    → Takes raw h c p
    → get_nal_type b ≡ single
    → Models cap_h264 width_h264 fs c.que_h264
    → (in_node c.que_h264).locked ≡ false
    → parse raw garbage c ≡ fault
unfolding parse_with
parse_runt raw garbage cap width flags h b d f rest c p cap_h264 width_h264 fs m short memory few w
      takes type m_h264 free =
    parse_round_fault raw garbage cap width f rest c m (
      ap (λ bytes. parse_leased raw garbage bytes (pos (length f)) lending) memory
      ∙ parse_leased_lem raw garbage flags h (b ∷ d) (pos (length f)) lending k.after true few w
          k.run
      ∙ bind_fault (after_check true k.after.rtp_parse (b ∷ d) (pos (length f))) (λ _. pure tt)
          faults)
  where
    lending : RtpClient
    lending = borrowed raw garbage cap width f rest c m

    k : Checked raw h lending p
    k = Takes-Checked raw h lending p (Takes-put_net raw h c p lending.que_net takes)

    faults : after_check true k.after.rtp_parse (b ∷ d) (pos (length f)) k.after ≡ fault
    faults =
        rw (k.parser, sub_pos_neg (length f) 12 short)
          (zoom_fault (load p) store (parse_payload (b ∷ d) (negsuc (12 - length f - 1)))
            {s = k.after}
            (parse_payload_runt (load p k.after) cap_h264 width_h264 fs b d (12 - length f - 1) type
              (subst (Models cap_h264 width_h264 fs) (sym k.h264) m_h264)
              (subst (λ q. (in_node q).locked ≡ false) (sym k.h264) free)))
