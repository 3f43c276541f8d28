-- ===== src/RtpClient/Pass.antt =====
-- Packets that `parse` of my_rtsp_client/cRTPClient.cpp passes on to the H.264 parser, and packets that
-- it drops.
use canok_rtsp_client.Base.{
  ℕ, ◌+◌, ◌==◌, ==_iff, ◌<◌, ◌≡◌, ◌≢◌, refl, ap, ◌∙◌, true, false, Bool-cases, inl, inr, Bytes, ◌∷◌,
  ◌++◌, arith, length, Option, some, none,
}
use canok_rtsp_client.Base.Int.{ℤ, pos, ◌-ℤ◌, add-sub_pos}
use canok_rtsp_client.Base.Outcome.{done, pure, bind_done, zoom_done}
use canok_rtsp_client.Macros.{ret_sucess}
use canok_rtsp_client.Queue.{CQueue}
use canok_rtsp_client.Queue.Frames.{Frames}
use canok_rtsp_client.Queue.Valid.{Models}
use canok_rtsp_client.Queue.Lend.{SameLocks}
use canok_rtsp_client.H264.{H264Rtp, parse_payload}
use canok_rtsp_client.RtpClient.{
  RtpPackHeaderInfo, RtpClient, FuBuffer, new_fu_buffer, make_parser, check_header, parse_with,
  parse, put_net, load, store,
}
use canok_rtsp_client.RtpClient.Header.{IsHeader, header_bytes}
use canok_rtsp_client.RtpClient.Loss.{
  same_stream, same_stream_lem, check_header_next, check_header_other,
}
use canok_rtsp_client.RtpClient.Parse.{
  after_check, borrowed, given_back-Models, given_back-SameLocks, there, leased, parse_round,
}

-- The parser that a packet with the header `h` goes to: the client's own, or a new one, over the memory
-- `raw`, for a first packet of payload type 96. A packet after the first is one of the same stream.
pub data Takes (raw : Bytes) (h : RtpPackHeaderInfo) (c : RtpClient) : FuBuffer → Type 0 where
  continues :
      (p : FuBuffer)
      → c.rtp_parse ≡ some p
      → h.ssrc ≡ c.last_rtp_info.ssrc
      → h.payload_type ≡ c.last_rtp_info.payload_type
      → Takes raw h c p
  begins :
      c.fist_sequence_number ≡ 0
      → c.rtp_parse ≡ none
      → h.payload_type ≡ 96
      → Takes raw h c (new_fu_buffer raw)

-- What the header check leaves for such a packet.
pub record Checked (raw : Bytes) (h : RtpPackHeaderInfo) (c : RtpClient) (p : FuBuffer)
    : Type 0 where
  pub after : RtpClient
  pub run : check_header raw h c ≡ done true after
  pub parser : after.rtp_parse ≡ some p
  pub net : after.que_net ≡ c.que_net
  pub h264 : after.que_h264 ≡ c.que_h264
  pub last : after.last_rtp_info ≡ h

Checked-first :
    (raw : Bytes) (h : RtpPackHeaderInfo) (c : RtpClient) (p : FuBuffer)
    → c.fist_sequence_number ≡ 0
    → make_parser raw h c.rtp_parse ≡ some p
    → Checked raw h c p
unfolding check_header
Checked-first raw h c p first e = record {
  after = record c {
    fist_sequence_number = h.sequence_number;
    last_rtp_info = h;
    rtp_parse = make_parser raw h c.rtp_parse;
  };
  run = rw ((==_iff _ _).1 first);
  parser = e;
  net = refl;
  h264 = refl;
  last = refl;
}

old_parser :
    (raw : Bytes) (h : RtpPackHeaderInfo) (o : Option FuBuffer) (p : FuBuffer)
    → o ≡ some p
    → make_parser raw h o ≡ some p
unfolding make_parser
old_parser raw h o p e = rw e

new_parser :
    (raw : Bytes) (h : RtpPackHeaderInfo) (o : Option FuBuffer)
    → o ≡ none
    → h.payload_type ≡ 96
    → make_parser raw h o ≡ some (new_fu_buffer raw)
unfolding make_parser
new_parser raw h o e type = rw (e, (==_iff _ _).1 type)

pub Takes-Checked :
    (raw : Bytes) (h : RtpPackHeaderInfo) (c : RtpClient) (p : FuBuffer)
    → Takes raw h c p
    → Checked raw h c p
Takes-Checked raw h c _ (continues p e ssrc type) =
    elim (Bool-cases (c.fist_sequence_number == 0)) [
      | inl first ↦
          Checked-first raw h c p ((==_iff _ _).0 first) (old_parser raw h c.rtp_parse p e)
      | inr later ↦ record {
        after = _;
        run = check_header_next raw h c later (same_stream_lem h c ssrc type);
        parser = e;
        net = refl;
        h264 = refl;
        last = refl;
      }
    ]
Takes-Checked raw h c _ (begins first e type) =
    Checked-first raw h c (new_fu_buffer raw) first (new_parser raw h c.rtp_parse e type)

pub Takes-put_net :
    (raw : Bytes) (h : RtpPackHeaderInfo) (c : RtpClient) (p : FuBuffer) (q : CQueue)
    → Takes raw h c p
    → Takes raw h (put_net q c) p
Takes-put_net raw h c _ q (continues p e ssrc type) = continues p e ssrc type
Takes-put_net raw h c _ q (begins first e type) = begins first e type

abbrev pub fu_of : H264Rtp → FuBuffer
fu_of t = record { buffer = t.fu_buffer; offset = t.fu_buffer_offset; len = t.fu_buffer_len }

payload_len :
    (flags : ℕ) (h : RtpPackHeaderInfo) (payload : Bytes)
    → pos (length (header_bytes flags h ++ payload)) -ℤ pos 12 ≡ pos (length payload)
payload_len flags h payload =
    ap (λ (n : ℕ). pos n -ℤ pos 12) twelve ∙ add-sub_pos (length payload) 12
  where
    twelve : length (header_bytes flags h ++ payload) ≡ length payload + 12
    twelve = omega arith

-- A client that was `b` and has passed the packet with the header `h` on, to reach the parser `t`; the
-- frames `fs` are left in the network queue, and no slot of it is held that was not held before.
pub record Passed (cap width : ℕ) (b : RtpClient) (h : RtpPackHeaderInfo) (fs : Frames)
    (t : H264Rtp) (c : RtpClient) : Type 0 where
  pub locks : SameLocks b.que_net c.que_net
  pub net : Models cap width fs c.que_net
  pub parser : c.rtp_parse ≡ some (fu_of t)
  pub h264 : c.que_h264 ≡ t.que_h264
  pub last : c.last_rtp_info ≡ h

module _ (raw : Bytes) (garbage : RtpPackHeaderInfo) (cap width flags : ℕ) (h : RtpPackHeaderInfo)
    (payload : Bytes) (fs : Frames) (c : RtpClient)
    (m : Models cap width ((header_bytes flags h ++ payload) ∷ fs) c.que_net) (few : flags < 64)
    (w : IsHeader h) where
  abbrev mem : Bytes
  mem = there raw garbage cap width flags h payload fs c m few w

  abbrev lending : RtpClient
  lending = borrowed raw garbage cap width (header_bytes flags h ++ payload) fs c m

  checked : (p : FuBuffer) → Takes raw h c p → Checked raw h lending p
  checked p takes = Takes-Checked raw h lending p (Takes-put_net raw h c p lending.que_net takes)

  handed :
      (p : FuBuffer) (k : Checked raw h lending p) (r : ℤ) (t : H264Rtp)
      → parse_payload mem (pos (length payload)) (load p c) ≡ done r t
      → after_check true k.after.rtp_parse mem
          (pos (length (header_bytes flags h ++ payload)))
          k.after
        ≡ done r (store t k.after)
  unfolding parse_with
  handed p k r t run =
      rw (k.parser, payload_len flags h payload)
        (zoom_done (load p) store (parse_payload mem (pos (length payload))) {s = k.after} (
          ap (λ q. parse_payload mem (pos (length payload)) (record (load p c) { que_h264 = q }))
            k.h264
          ∙ run))

  -- A packet with a good header, for a client that has a parser or makes one, goes to `parse_payload`
  -- without its first twelve bytes. When that returns, `parse` returns RET_SUCESS: the packet is gone
  -- from the network queue, its slot is given back (the same slots are locked as before), and the parser and the frame queue are as
  -- `parse_payload` leaves them.
  pub parse_passes :
      (p : FuBuffer)
      → Takes raw h c p
      → (r : ℤ) (t : H264Rtp) → parse_payload mem (pos (length payload)) (load p c) ≡ done r t
      → (c' : RtpClient) × (parse raw garbage c ≡ done ret_sucess c') × Passed cap width c h fs t c'
  parse_passes p takes r t run =
      let k = checked p takes in
      (
        _,
        parse_round raw garbage cap width (header_bytes flags h ++ payload) fs c m (store t k.after)
            (leased raw garbage cap width flags h payload fs c m few w k.after true
                (pos (length (header_bytes flags h ++ payload))) k.run
              ∙ bind_done
                  (after_check true k.after.rtp_parse mem
                    (pos (length (header_bytes flags h ++ payload))))
                  (λ _. pure tt) (handed p k r t run))
            k.net,
        record {
          locks =
              given_back-SameLocks raw garbage cap width (header_bytes flags h ++ payload) fs c m;
          net = given_back-Models raw garbage cap width (header_bytes flags h ++ payload) fs c m;
          parser = refl;
          h264 = refl;
          last = k.last;
        },
      )

  -- A packet whose header does not fit the stream is dropped: only the network queue changes,
  -- and the packet's slot is given back.
  pub parse_drops :
      c.fist_sequence_number ≢ 0
      → same_stream h c ≡ false
      → (q : CQueue) × (parse raw garbage c ≡ done ret_sucess (put_net q c))
        × Models cap width fs q
        × SameLocks c.que_net q
  parse_drops later other = (
    _,
    parse_round raw garbage cap width (header_bytes flags h ++ payload) fs c m lending
        (leased raw garbage cap width flags h payload fs c m few w lending false
            (pos (length (header_bytes flags h ++ payload)))
            (check_header_other raw h lending (ground arith) other)
          ∙ refl)
        refl,
    given_back-Models raw garbage cap width (header_bytes flags h ++ payload) fs c m,
    given_back-SameLocks raw garbage cap width (header_bytes flags h ++ payload) fs c m,
  )
