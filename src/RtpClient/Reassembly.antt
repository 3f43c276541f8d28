-- ===== src/RtpClient/Reassembly.antt =====
-- From the network queue to the frame queue of my_rtsp_client/cRTPClient.cpp: single NAL units, and units
-- in FU-A fragments.
use canok_rtsp_client.Base.{
  ℕ, zero, suc, ◌+◌, ◌<◌, ◌≤◌, ◌≡◌, refl, sym, ap, ap₂, subst, ◌∙◌, Bytes, List, [], ◌∷◌, ◌++◌, map,
  length, false, arith,
}
use canok_rtsp_client.Base.Int.{ℤ, pos}
use canok_rtsp_client.Base.Outcome.{done, bind-done}
use canok_rtsp_client.Queue.Frames
use canok_rtsp_client.Queue.Frames.{Frames}
use canok_rtsp_client.Queue.Valid.{Models}
use canok_rtsp_client.Queue.Push.{in_node}
use canok_rtsp_client.H264.{H264Rtp, parse_payload}
use canok_rtsp_client.H264.Collect.{IsValid}
use canok_rtsp_client.H264.Fragments.{
  Packet, Part, fragments, fu_packet, fu_indicator, start_header, middle_header, end_header, joined,
}
use canok_rtsp_client.H264.Reassembly.{parse_all, parse_all-fragments}
use canok_rtsp_client.RtpClient.{RtpPackHeaderInfo, RtpClient, FuBuffer, load}
use canok_rtsp_client.RtpClient.Header.{IsHeader}
use canok_rtsp_client.RtpClient.Pass.{Takes}
use canok_rtsp_client.RtpClient.Stream.{
  RtpPacket, wire, payloads, AreStream, Parses, parse_rounds, Arrived, parse_rounds-stream,
}

-- The packets in memory, with these bytes behind each.
abbrev in_memory : List Bytes → (ℕ → Bytes) → List Packet
in_memory [] behind = []
in_memory (b ∷ bs) behind =
    record { mem = b ++ behind 0; len = length b } ∷ in_memory bs (λ i. behind (suc i))

-- If `parse_all` on a list of packets returns, so does its first step.
split_first :
    (p : Packet) (ps : List Packet) (s : H264Rtp) {t : H264Rtp}
    → parse_all (p ∷ ps) s ≡ done tt t
    → (r : ℤ) × (u : H264Rtp) × (parse_payload p.mem (pos p.len) s ≡ done r u)
      × (parse_all ps u ≡ done tt t)
unfolding parse_all
split_first p ps s e = bind-done (parse_payload p.mem (pos p.len)) (λ _. parse_all ps) s e

abbrev in_front : Bytes → (ℕ → Bytes) → ℕ → Bytes
in_front b behind zero = b
in_front b behind (suc i) = behind i

-- What follows from every good run on `b ∷ bs`, once the first packet has been taken.
rest_runs :
    (P : H264Rtp → Type 0) (b : Bytes) (bs : List Bytes) (s : H264Rtp) (b0 : Bytes) (r : ℤ)
    (u : H264Rtp)
    → ((behind : ℕ → Bytes)
        → (t : H264Rtp) × (parse_all (in_memory (b ∷ bs) behind) s ≡ done tt t) × P t)
    → parse_payload (b ++ b0) (pos (length b)) s ≡ done r u
    → (behind : ℕ → Bytes) → (t : H264Rtp) × (parse_all (in_memory bs behind) u ≡ done tt t) × P t
rest_runs P b bs s b0 r u all run behind =
    let (t, e, reached) = all (in_front b0 behind) in
    let (r', u', run', rest) =
      split_first (record { mem = b ++ b0; len = length b }) (in_memory bs behind) s e in
    let same : u' ≡ u = cc (run, run') in
    (t, ap (parse_all (in_memory bs behind)) (sym same) ∙ rest, reached)

-- A run of `parse_all` that ends well for any bytes behind the packets is one packet after another.
parse_all-Parses :
    (P : H264Rtp → Type 0) (bs : List Bytes) (s : H264Rtp)
    → ((behind : ℕ → Bytes) → (t : H264Rtp) × (parse_all (in_memory bs behind) s ≡ done tt t) × P t)
    → Parses P bs s
unfolding parse_all
parse_all-Parses P [] s all =
    let (t, e, reached) = all (λ i. []) in let same : s ≡ t = cc e in subst P (sym same) reached
parse_all-Parses P (b ∷ bs) s all = λ b0.
    let (t, e, reached) = all (in_front b0 (λ i. [])) in
    let (r, u, run, rest) =
      split_first (record { mem = b ++ b0; len = length b }) (in_memory bs (λ i. [])) s e in
    (r, u, run, parse_all-Parses P bs u (rest_runs P b bs s b0 r u all run))

-- The payloads of the FU-A packets of a unit.
abbrev fu_payload : ℕ → ℕ → Bytes → Bytes
fu_payload h header b = fu_indicator h ∷ header ∷ b

abbrev part : Bytes → Bytes → Part
part b behind = record { bytes = b; stale = behind }

abbrev parts : List Bytes → (ℕ → Bytes) → List Part
parts [] behind = []
parts (b ∷ bs) behind = part b (behind 0) ∷ parts bs (λ i. behind (suc i))

abbrev pub fu_payloads : ℕ → Bytes → List Bytes → Bytes → List Bytes
fu_payloads h first others last =
    fu_payload h (start_header h) first
    ∷ (map (fu_payload h (middle_header h)) others ++ (fu_payload h (end_header h) last ∷ []))

in_memory-fu_payload :
    (h header : ℕ) (b behind : Bytes)
    → ◌≡◌ {A = Packet}
        (record { mem = fu_payload h header b ++ behind; len = length (fu_payload h header b) })
        (fu_packet h header (part b behind))
in_memory-fu_payload h header b behind =
    ap (λ n. record { mem = fu_payload h header b ++ behind; len = n }) (omega arith)

in_memory-others :
    (h : ℕ) (others : List Bytes) (last : Bytes) (behind : ℕ → Bytes)
    → in_memory
        (map (fu_payload h (middle_header h)) others ++ (fu_payload h (end_header h) last ∷ []))
        behind
      ≡ map (fu_packet h (middle_header h)) (parts others behind)
        ++ (fu_packet h (end_header h) (part last (behind (length others))) ∷ [])
in_memory-others h [] last behind =
    ap₂ ◌∷◌ (in_memory-fu_payload h (end_header h) last (behind 0)) refl
in_memory-others h (b ∷ others) last behind =
    ap₂ ◌∷◌ (in_memory-fu_payload h (middle_header h) b (behind 0))
      (in_memory-others h others last (λ i. behind (suc i)))

in_memory-fragments :
    (h : ℕ) (first : Bytes) (others : List Bytes) (last : Bytes) (behind : ℕ → Bytes)
    → in_memory (fu_payloads h first others last) behind
      ≡ fragments h
          (part first (behind 0))
          (parts others (λ i. behind (suc i)))
          (part last (behind (suc (length others))))
in_memory-fragments h first others last behind =
    ap₂ ◌∷◌ (in_memory-fu_payload h (start_header h) first (behind 0))
      (in_memory-others h others last (λ i. behind (suc i)))

abbrev pub flat : List Bytes → Bytes
flat [] = []
flat (b ∷ bs) = b ++ flat bs

joined-parts :
    (bs : List Bytes) (last b : Bytes) (behind : ℕ → Bytes)
    → joined (parts bs behind ++ (part last b ∷ [])) ≡ flat (bs ++ (last ∷ []))
joined-parts [] last b behind = refl
joined-parts (c ∷ bs) last b behind =
    ap (λ x. c ++ x) (joined-parts bs last b (λ i. behind (suc i)))

-- A parser with nothing collected, over a frame queue that implements `fs`.
pub record IsIdle (cap width : ℕ) (fs : Frames) (s : H264Rtp) : Type 0 where
  pub valid : IsValid s
  pub empty : s.fu_buffer_offset ≡ 0
  pub frames : Models cap width fs s.que_h264

fragments-Parses :
    (h : ℕ) (first : Bytes) (others : List Bytes) (last : Bytes) (s : H264Rtp) (cap width : ℕ)
    (fs : Frames)
    → h < 256
    → IsIdle cap width fs s
    → 1 + length (flat (first ∷ (others ++ (last ∷ [])))) ≤ s.fu_buffer_len
    → (in_node s.que_h264).locked ≡ false
    → Parses
        (IsIdle cap width (Frames.push cap width (h ∷ flat (first ∷ (others ++ (last ∷ [])))) fs))
        (fu_payloads h first others last)
        s
fragments-Parses h first others last s cap width fs byte idle room free =
    parse_all-Parses _ (fu_payloads h first others last) s (λ behind.
      let whole =
        ap (λ x. first ++ x)
          (joined-parts others last (behind (suc (length others))) (λ i. behind (suc i))) in
      let (t, run, m, v, clear) =
        parse_all-fragments h (part first (behind 0)) (parts others (λ i. behind (suc i)))
          (part last (behind (suc (length others)))) s cap width fs byte idle.valid idle.empty
          (omega (arith, room, ap length whole)) idle.frames free in
      (
        t,
        ap (λ ps. parse_all ps s) (in_memory-fragments h first others last behind) ∙ run,
        record {
          valid = v;
          empty = clear;
          frames =
              subst (λ b. Models cap width (Frames.push cap width (h ∷ b) fs) t.que_h264) whole m;
        },
      ))

-- A NAL unit that was sent in FU-A packets reaches the frame queue whole. With the packets of one
-- stream in the network queue, their payloads the fragments of the unit with the header byte `h`, and an
-- idle parser with room for it, as many rounds of the parsing thread as there are packets take them out
-- of the network queue and leave the frame queue as one push of the unit does. The parser is idle again.
pub parse_rounds-fragments :
    (raw : Bytes) (garbage : RtpPackHeaderInfo) (cap width : ℕ) (rest : Frames) (x : RtpPacket)
    (xs : List RtpPacket) (c : RtpClient) (p : FuBuffer) (h : ℕ) (first : Bytes)
    (others : List Bytes) (last : Bytes) (cap_h264 width_h264 : ℕ) (fs : Frames)
    → x.flags < 64
    → IsHeader x.header
    → Takes raw x.header c p
    → AreStream x.header xs
    → Models cap width (wire x ∷ (map wire xs ++ rest)) c.que_net
    → (x.payload ∷ payloads xs) ≡ fu_payloads h first others last
    → h < 256
    → IsIdle cap_h264 width_h264 fs (load p c)
    → 1 + length (flat (first ∷ (others ++ (last ∷ [])))) ≤ p.len
    → (in_node c.que_h264).locked ≡ false
    → (c' : RtpClient) × (parse_rounds raw garbage (suc (length xs)) c ≡ done tt c')
      × Arrived raw garbage cap width rest
          (IsIdle cap_h264 width_h264
            (Frames.push cap_h264 width_h264 (h ∷ flat (first ∷ (others ++ (last ∷ [])))) fs))
          c'
parse_rounds-fragments raw garbage cap width rest x xs c p h first others last cap_h264 width_h264
      fs few w takes same m cut byte idle room free =
    parse_rounds-stream raw garbage cap width rest _ x xs c p few w takes same m (
      subst
        (λ bs.
          Parses
            (IsIdle cap_h264 width_h264
              (Frames.push cap_h264 width_h264 (h ∷ flat (first ∷ (others ++ (last ∷ [])))) fs))
            bs (load p c))
        (sym cut)
        (fragments-Parses h first others last (load p c) cap_h264 width_h264 fs byte idle room
          free))
