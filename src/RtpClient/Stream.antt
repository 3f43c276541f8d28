-- ===== src/RtpClient/Stream.antt =====
-- Rounds of the parsing thread of my_rtsp_client/cRTPClient.cpp over the packets of one stream.
use canok_rtsp_client.Base.{
  ℕ, zero, suc, ◌<◌, ◌≡◌, refl, sym, ap, subst, ◌∙◌, Bytes, List, [], ◌∷◌, ◌++◌, map, length, some,
}
use canok_rtsp_client.Base.Int.{ℤ, pos}
use canok_rtsp_client.Base.Outcome.{M, done, pure, ◌>>=◌, bind_done}
use canok_rtsp_client.Macros.{ret_sucess}
use canok_rtsp_client.Queue.Frames.{Frames}
use canok_rtsp_client.Queue.Valid.{Models}
use canok_rtsp_client.H264.{H264Rtp, parse_payload}
use canok_rtsp_client.RtpClient.{RtpPackHeaderInfo, RtpClient, FuBuffer, parse, load}
use canok_rtsp_client.RtpClient.Header.{IsHeader, header_bytes}
use canok_rtsp_client.RtpClient.Parse.{stale}
use canok_rtsp_client.RtpClient.Pass.{Takes, continues, Passed, fu_of, parse_passes}

pub record RtpPacket : Type 0 where
  pub flags : ℕ
  pub header : RtpPackHeaderInfo
  pub payload : Bytes

abbrev pub wire : RtpPacket → Bytes
wire p = header_bytes p.flags p.header ++ p.payload

abbrev pub payloads : List RtpPacket → List Bytes
payloads ps = map (λ (p : RtpPacket). p.payload) ps

-- Well-formed packets, each of the stream of the one before.
abbrev pub AreStream : RtpPackHeaderInfo → List RtpPacket → Type 0
AreStream last [] = Unit
AreStream last (p ∷ ps) =
    (p.flags < 64)
    × IsHeader p.header
    × (p.header.ssrc ≡ last.ssrc)
    × (p.header.payload_type ≡ last.payload_type)
    × AreStream p.header ps

-- Whatever bytes stand behind each payload in memory, the parser takes these payloads one after
-- another, to reach a state with the property `P`.
abbrev pub Parses : (H264Rtp → Type 0) → List Bytes → H264Rtp → Type 0
Parses P [] s = P s
Parses P (b ∷ bs) s =
    (behind : Bytes)
    → (r : ℤ) × (t : H264Rtp) × (parse_payload (b ++ behind) (pos (length b)) s ≡ done r t)
      × Parses P bs t

module _ (raw : Bytes) (garbage : RtpPackHeaderInfo) where
  -- `n` rounds of `parse_thread`.
  unfoldable pub parse_rounds : ℕ → M RtpClient (Unit {0})
  parse_rounds zero = pure tt
  parse_rounds (suc n) = do _ ← parse raw garbage; parse_rounds n

  -- The frames `rest` are left in the network queue, and the client's parser has the property `P`.
  pub record Arrived (cap width : ℕ) (rest : Frames) (P : H264Rtp → Type 0) (c : RtpClient)
      : Type 0 where
    pub net : Models cap width rest c.que_net
    pub parser : FuBuffer
    pub has_parser : c.rtp_parse ≡ some parser
    pub reached : P (load parser c)

  module _ (cap width : ℕ) (rest : Frames) (P : H264Rtp → Type 0) where
    one_round :
        (x : RtpPacket) (fs : Frames) (bs : List Bytes) (c : RtpClient) (p : FuBuffer)
        → x.flags < 64
        → IsHeader x.header
        → Takes raw x.header c p
        → Models cap width (wire x ∷ fs) c.que_net
        → Parses P (x.payload ∷ bs) (load p c)
        → (c1 : RtpClient) × (parse raw garbage c ≡ done ret_sucess c1)
          × (t : H264Rtp) × Passed cap width c x.header fs t c1
          × Parses P bs t
    one_round x fs bs c p few w takes m steps =
        let (r, t, run, steps') = steps (stale raw garbage cap width (wire x) fs c m) in
        let (c1, run1, passed) =
          parse_passes raw garbage cap width x.flags x.header x.payload fs c m few w p takes r t
            run in
        (c1, run1, t, passed, steps')

    stream_continues :
        (xs : List RtpPacket) (c : RtpClient) (p : FuBuffer)
        → c.rtp_parse ≡ some p
        → AreStream c.last_rtp_info xs
        → Models cap width (map wire xs ++ rest) c.que_net
        → Parses P (payloads xs) (load p c)
        → (c' : RtpClient) × (parse_rounds (length xs) c ≡ done tt c') × Arrived cap width rest P c'
    unfolding parse_rounds
    stream_continues [] c p e same m reached =
        (c, refl, record { net = m; parser = p; has_parser = e; reached = reached })
    stream_continues (x ∷ xs) c p e (few, w, ssrc, type, same) m steps =
        let (c1, run1, t, passed, steps') =
          one_round x (map wire xs ++ rest) (payloads xs) c p few w (continues p e ssrc type) m
            steps in
        let (c', run, arrived) =
          stream_continues xs c1 (fu_of t) passed.parser
            (subst (λ h. AreStream h xs) (sym passed.last) same) passed.net
            (subst (Parses P (payloads xs)) (ap (λ q. record t { que_h264 = q }) (sym passed.h264))
              steps') in
        (c', bind_done (parse raw garbage) (λ _. parse_rounds (length xs)) run1 ∙ run, arrived)

    -- With the packets of a stream in the network queue, and a client that has their parser or makes it
    -- from the first one, as many rounds as packets take them all out of the queue, and bring the parser
    -- and the frame queue where `parse_payload` on their payloads in order brings them.
    pub parse_rounds-stream :
        (x : RtpPacket) (xs : List RtpPacket) (c : RtpClient) (p : FuBuffer)
        → x.flags < 64
        → IsHeader x.header
        → Takes raw x.header c p
        → AreStream x.header xs
        → Models cap width (wire x ∷ (map wire xs ++ rest)) c.que_net
        → Parses P (x.payload ∷ payloads xs) (load p c)
        → (c' : RtpClient) × (parse_rounds (suc (length xs)) c ≡ done tt c')
          × Arrived cap width rest P c'
    unfolding parse_rounds
    parse_rounds-stream x xs c p few w takes same m steps =
        let (c1, run1, t, passed, steps') =
          one_round x (map wire xs ++ rest) (payloads xs) c p few w takes m steps in
        let (c', run, arrived) =
          stream_continues xs c1 (fu_of t) passed.parser
            (subst (λ h. AreStream h xs) (sym passed.last) same) passed.net
            (subst (Parses P (payloads xs)) (ap (λ q. record t { que_h264 = q }) (sym passed.h264))
              steps') in
        (c', bind_done (parse raw garbage) (λ _. parse_rounds (length xs)) run1 ∙ run, arrived)
