-- ===== src/RtpClient/Parse.antt =====
-- `parse` of my_rtsp_client/cRTPClient.cpp: a packet goes from the network queue through the header
-- check to the H.264 parser, and its slot is given back.
use canok_rtsp_client.Base.{
  ℕ, ◌<◌, ◌≡◌, sym, ap, ◌∙◌, Bool, Bytes, ◌∷◌, ◌++◌, arith, length, drop, Option, some, true,
  take-append-drop, get_or-set_ne, if◌then◌else◌,
}
use canok_rtsp_client.Base.Int.{ℤ, pos, ◌-ℤ◌}
use canok_rtsp_client.Base.Outcome.{
  M, done, fault, pure, get, ◌>>=◌, bind_done, bind_fault, zoom, zoom_done,
}
use canok_rtsp_client.Macros.{ret_sucess}
use canok_rtsp_client.Queue.{Node, CQueue, getbuffer, releasebuffer}
use canok_rtsp_client.Queue.Frames.{Frames}
use canok_rtsp_client.Queue.Valid.{Models, blank}
use canok_rtsp_client.Queue.Front.{out_node, front-IsReady}
use canok_rtsp_client.Queue.Pop.{front_bytes}
use canok_rtsp_client.Queue.Lend.{
  SameLocks, released-SameLocks, lent, lent-Models, getbuffer_found, released, released-Models,
  releasebuffer-released,
}
use canok_rtsp_client.RtpClient.{
  RtpPackHeaderInfo, RtpClient, FuBuffer, set_header_info, check_header, parse_with, parse_leased,
  release_net, parse, put_net,
}
use canok_rtsp_client.RtpClient.Header.{IsHeader, header_bytes, set_header_info-header_bytes}

-- What is left of the packet once its header has been read and judged.
abbrev pub after_check : Bool → Option FuBuffer → Bytes → ℤ → M RtpClient ℤ
after_check ok p rest len = if ok then parse_with p rest (len -ℤ pos 12) else pure ret_sucess

abbrev with_check : Bytes → ℤ → Bool → M RtpClient (Unit {0})
with_check rest len ok = do c ← get; _ ← after_check ok c.rtp_parse rest len; pure tt

abbrev with_header : Bytes → Bytes → ℤ → ℤ × RtpPackHeaderInfo → M RtpClient (Unit {0})
with_header raw rest len r = check_header raw r.1 >>= with_check rest len

module _ (raw : Bytes) (garbage : RtpPackHeaderInfo) where
  pub parse_leased_lem :
      (flags : ℕ) (h : RtpPackHeaderInfo) (rest : Bytes) (len : ℤ) (s s1 : RtpClient) (ok : Bool)
      → flags < 64
      → IsHeader h
      → check_header raw h s ≡ done ok s1
      → parse_leased raw garbage (header_bytes flags h ++ rest) len s
        ≡ (after_check ok s1.rtp_parse rest len >>= λ _. pure tt) s1
  unfolding parse_leased
  parse_leased_lem flags h rest len s s1 ok hf w e =
      bind_done (set_header_info (some (header_bytes flags h ++ rest)) garbage)
        (with_header raw rest len) (set_header_info-header_bytes flags h rest garbage s hf w)
      ∙ bind_done (check_header raw h) (with_check rest len) e

  module _ (cap width : ℕ) (f : Bytes) (fs : Frames) (c : RtpClient)
      (m : Models cap width (f ∷ fs) c.que_net) where
    -- The client while the packet is borrowed, and the network queue after it is given back.
    abbrev pub borrowed : RtpClient
    borrowed = put_net (lent cap width f fs c.que_net m) c

    abbrev pub given_back : CQueue
    given_back = released c.que_net.out_index (lent cap width f fs c.que_net m)

    inside : c.que_net.out_index < cap
    inside = omega (arith, m.valid.out_range, m.capacity)

    pub given_back-Models : Models cap width fs given_back
    given_back-Models =
        released-Models cap width fs (lent cap width f fs c.que_net m)
          (lent-Models cap width f fs c.que_net m) c.que_net.out_index inside

    -- The packet's slot was free, and is again.
    pub given_back-SameLocks : SameLocks c.que_net given_back
    given_back-SameLocks =
        released-SameLocks c.que_net (lent cap width f fs c.que_net m) c.que_net.out_index
          (omega (arith, lent-Models cap width f fs c.que_net m, inside))
          (front-IsReady cap width f fs c.que_net m).unlocked
          (λ j ne.
            ap (λ (n : Node). n.locked)
              (get_or-set_ne c.que_net.que c.que_net.out_index j
                (record (out_node c.que_net) { locked = true }) blank ne))

    given :
        (c2 : RtpClient)
        → c2.que_net ≡ lent cap width f fs c.que_net m
        → release_net (pos c.que_net.out_index) c2 ≡ done 0 (put_net given_back c2)
    unfolding release_net
    given c2 e =
        zoom_done (λ c. c.que_net) put_net (releasebuffer (pos c.que_net.out_index))
          (ap (releasebuffer (pos c.que_net.out_index)) e
            ∙ releasebuffer-released cap width fs (lent cap width f fs c.que_net m)
                (lent-Models cap width f fs c.que_net m) c.que_net.out_index inside)

    -- A round of the parsing thread, given what happens to the packet.
    pub parse_round :
        (c2 : RtpClient)
        → parse_leased raw garbage (out_node c.que_net).bytes (pos (length f)) borrowed ≡ done tt c2
        → c2.que_net ≡ lent cap width f fs c.que_net m
        → parse raw garbage c ≡ done ret_sucess (put_net given_back c2)
    unfolding parse
    parse_round c2 run same =
        bind_done (zoom (λ c. c.que_net) put_net getbuffer) _ (
          zoom_done (λ c. c.que_net) put_net getbuffer (getbuffer_found cap width f fs c.que_net m))
        ∙ bind_done (parse_leased raw garbage (out_node c.que_net).bytes (pos (length f))) _ run
        ∙ bind_done (release_net (pos c.que_net.out_index)) _ (given c2 same)

    pub parse_round_fault :
        parse_leased raw garbage (out_node c.que_net).bytes (pos (length f)) borrowed ≡ fault
        → parse raw garbage c ≡ fault
    unfolding parse
    parse_round_fault run =
        bind_done (zoom (λ c. c.que_net) put_net getbuffer) _ (
          zoom_done (λ c. c.que_net) put_net getbuffer (getbuffer_found cap width f fs c.que_net m))
        ∙ bind_fault (parse_leased raw garbage (out_node c.que_net).bytes (pos (length f))) _ run

    -- The slot holds the packet, and stale bytes behind it.
    abbrev pub stale : Bytes
    stale = drop (length f) (out_node c.que_net).bytes

    memory : (out_node c.que_net).bytes ≡ f ++ stale
    memory =
        sym (take-append-drop (length f) (out_node c.que_net).bytes)
        ∙ ap (λ b. b ++ stale) (front_bytes cap width f fs c.que_net m)

  -- A borrowed packet with a header.
  module _ (cap width flags : ℕ) (h : RtpPackHeaderInfo) (payload : Bytes) (fs : Frames)
      (c : RtpClient) (m : Models cap width ((header_bytes flags h ++ payload) ∷ fs) c.que_net)
      (few : flags < 64) (w : IsHeader h) where
    abbrev pub there : Bytes
    there = payload ++ stale cap width (header_bytes flags h ++ payload) fs c m

    pub leased :
        (s1 : RtpClient) (ok : Bool) (len : ℤ)
        → check_header raw h (borrowed cap width (header_bytes flags h ++ payload) fs c m)
          ≡ done ok s1
        → parse_leased raw garbage
            (out_node c.que_net).bytes
            len
            (borrowed cap width (header_bytes flags h ++ payload) fs c m)
          ≡ (after_check ok s1.rtp_parse there len >>= λ _. pure tt) s1
    leased s1 ok len e =
        ap
          (λ b.
            parse_leased raw garbage b len
              (borrowed cap width (header_bytes flags h ++ payload) fs c m))
          (memory cap width (header_bytes flags h ++ payload) fs c m)
        ∙ parse_leased_lem flags h there len
            (borrowed cap width (header_bytes flags h ++ payload) fs c m) s1 ok few w e
