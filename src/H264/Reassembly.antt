-- ===== src/H264/Reassembly.antt =====
-- The packets of a fragmented NAL unit put the whole unit into the queue, as one frame.
use canok_rtsp_client.Base.{
  ℕ, ◌+◌, ◌≤◌, ◌<◌, ◌≡◌, refl, sym, ap, ap₂, subst, ◌∙◌, false, Bytes, List, [], ◌∷◌, ◌++◌, map,
  arith, length, take, take-append, length-append, append_assoc, append-nil,
}
use canok_rtsp_client.Base.Int.{pos}
use canok_rtsp_client.Base.Outcome.{M, done, ◌>>=◌, pure, bind_done}
use canok_rtsp_client.Macros.{ret_sucess}
use canok_rtsp_client.H264.{H264Rtp, fu_nal, parse_payload}
use canok_rtsp_client.H264.Collect.{
  IsValid, collected, appended, appended-IsValid, collected-appended, flush_lem,
}
use canok_rtsp_client.H264.Fragments.{
  Packet, Part, fu_packet, fu_indicator, start_header, middle_header, end_header, fragments, joined,
  joined-concat, Headers, Headers_lem,
}
use canok_rtsp_client.Queue.Frames
use canok_rtsp_client.Queue.Frames.{Frames}
use canok_rtsp_client.Queue.Valid.{Models}
use canok_rtsp_client.Queue.Push.{in_node}
use canok_rtsp_client.H264.Branches.{parse_fu, started, branch_start, branch_middle, branch_end}

-- `parse_payload` on one packet after another.
unfoldable pub parse_all : List Packet → M H264Rtp (Unit {0})
parse_all [] = pure tt
parse_all (p ∷ ps) = do _ ← parse_payload p.mem (pos p.len); parse_all ps

-- From `s`, these bytes have been collected to reach `t`, and nothing has been put out.
record Collects (s : H264Rtp) (bytes : Bytes) (t : H264Rtp) : Type 0 where
  valid : IsValid t
  got : collected t ≡ collected s ++ bytes
  offset : t.fu_buffer_offset ≡ s.fu_buffer_offset + length bytes
  room : t.fu_buffer_len ≡ s.fu_buffer_len
  que : t.que_h264 ≡ s.que_h264

appended_part :
    (s : H264Rtp) (p : Part)
    → IsValid s
    → s.fu_buffer_offset + length p.bytes ≤ s.fu_buffer_len
    → Collects s p.bytes (appended (p.bytes ++ p.stale) (length p.bytes) s)
appended_part s p v fits = record {
  valid = appended-IsValid s v d n fits there;
  got =
      collected-appended s v d n fits there
      ∙ ap (λ b. collected s ++ b) (take-append p.bytes p.stale n refl);
  offset = refl;
  room = refl;
  que = refl;
}
  where
    d : Bytes
    d = p.bytes ++ p.stale

    n : ℕ
    n = length p.bytes

    there : n ≤ length d
    there = omega (arith, length-append p.bytes p.stale)

Collects-append :
    {s t u : H264Rtp} (a b : Bytes) → Collects s a t → Collects t b u → Collects s (a ++ b) u
Collects-append {s} a b x y = record {
  valid = y.valid;
  got = y.got ∙ ap (λ c. c ++ b) x.got ∙ append_assoc (collected s) a b;
  offset = omega (arith, y.offset, x.offset, length-append a b);
  room = y.room ∙ x.room;
  que = y.que ∙ x.que;
}

-- The middle packets, one after another.
module _ (h : ℕ) (facts : Headers h) where
  parse_middle :
      (p : Part) (s : H264Rtp)
      → IsValid s
      → s.fu_buffer_offset + length p.bytes ≤ s.fu_buffer_len
      → parse_payload (fu_packet h (middle_header h) p).mem (pos (length p.bytes + 2)) s
        ≡ done ret_sucess (appended (p.bytes ++ p.stale) (length p.bytes) s)
  parse_middle p s v fits =
      parse_fu (fu_indicator h) (middle_header h) (p.bytes ++ p.stale) (length p.bytes) s _
        facts.type
        (branch_middle s v (middle_header h) _ (p.bytes ++ p.stale) (length p.bytes)
          (omega (arith, length-append p.bytes p.stale)) facts.middle_start facts.middle_end fits)

  parse_middles :
      (ps : List Part) (rest : List Packet) (s : H264Rtp)
      → IsValid s
      → s.fu_buffer_offset + length (joined ps) ≤ s.fu_buffer_len
      → (t : H264Rtp) × (parse_all (map (fu_packet h (middle_header h)) ps ++ rest) s
          ≡ parse_all rest t)
        × Collects s (joined ps) t
  unfolding parse_all
  parse_middles [] rest s v room = (
    s,
    refl,
    record {
      valid = v;
      got = sym (append-nil (collected s));
      offset = omega arith;
      room = refl;
      que = refl;
    },
  )
  parse_middles (p ∷ ps) rest s v room =
      let fits : s.fu_buffer_offset + length p.bytes ≤ s.fu_buffer_len =
        omega (arith, length-append p.bytes (joined ps)) in
      let one = appended (p.bytes ++ p.stale) (length p.bytes) s in
      let first = appended_part s p v fits in
      let left : s.fu_buffer_offset + length p.bytes + length (joined ps) ≤ s.fu_buffer_len =
        omega (arith, length-append p.bytes (joined ps)) in
      let (t, run, more) = parse_middles ps rest one first.valid left in
      (
        t,
        bind_done (parse_payload _ _) _ (parse_middle p s v fits) ∙ run,
        Collects-append p.bytes (joined ps) first more,
      )

  parse_first :
      (p : Part) (s : H264Rtp)
      → IsValid s
      → s.fu_buffer_offset ≡ 0
      → length p.bytes + 1 ≤ s.fu_buffer_len
      → (t : H264Rtp) × (parse_payload
            (fu_packet h (start_header h) p).mem
            (pos (length p.bytes + 2))
            s
          ≡ done ret_sucess t)
        × Collects s (h ∷ p.bytes) t
  parse_first p s v clear fits =
      let (run, valid, got) =
        branch_start s v (start_header h) nal d n there facts.start_bit clear fits in
      (
        started s v (start_header h) nal d n there,
        parse_fu (fu_indicator h) (start_header h) d n s _ facts.type run,
        record {
          valid = valid;
          got =
              got
              ∙ ap₂ ◌∷◌ facts.nal (take-append p.bytes p.stale n refl)
              ∙ ap (λ k. take k s.fu_buffer ++ (h ∷ p.bytes)) (sym clear);
          offset = omega arith;
          room = refl;
          que = refl;
        },
      )
    where
      nal : ℕ
      nal = fu_nal (fu_indicator h) (start_header h)

      d : Bytes
      d = p.bytes ++ p.stale

      n : ℕ
      n = length p.bytes

      there : n ≤ length d
      there = omega (arith, length-append p.bytes p.stale)

  parse_last :
      (p : Part) (s : H264Rtp) (cap width : ℕ) (fs : Frames)
      → IsValid s
      → s.fu_buffer_offset + length p.bytes ≤ s.fu_buffer_len
      → Models cap width fs s.que_h264
      → (in_node s.que_h264).locked ≡ false
      → (t : H264Rtp) × (parse_payload
            (fu_packet h (end_header h) p).mem
            (pos (length p.bytes + 2))
            s
          ≡ done ret_sucess t)
        × Models cap width (Frames.push cap width (collected s ++ p.bytes) fs) t.que_h264
        × IsValid t
        × (t.fu_buffer_offset ≡ 0)
  parse_last p s cap width fs v fits m free =
      let one = appended_part s p v fits in
      let (q, run, m') = flush_lem (appended d n s) cap width fs one.valid m free in
      (
        record (appended d n s) { que_h264 = q; fu_buffer_offset = 0 },
        parse_fu (fu_indicator h) (end_header h) d n s _ facts.type (
            branch_end s v (end_header h) _ d n (omega (arith, length-append p.bytes p.stale))
              facts.end_start facts.end_bit fits run),
        subst (λ f. Models cap width (Frames.push cap width f fs) q) one.got m',
        record { sized = one.valid.sized; inside = omega arith },
        refl,
      )
    where
      d : Bytes
      d = p.bytes ++ p.stale

      n : ℕ
      n = length p.bytes

-- A NAL unit cut into FU-A packets comes out whole. From a valid parser with nothing collected, with
-- room for the unit in the fragment buffer, and while no client holds the queue's next slot, its
-- packets in order return, and leave the queue as one push of the unit does: its header byte and the
-- joined parts, whatever bytes stand behind the packets in memory. The buffer is empty again.
pub parse_all-fragments :
    (h : ℕ) (first : Part) (others : List Part) (last : Part) (s : H264Rtp) (cap width : ℕ)
    (fs : Frames)
    → h < 256
    → IsValid s
    → s.fu_buffer_offset ≡ 0
    → 1 + length (joined (first ∷ (others ++ (last ∷ [])))) ≤ s.fu_buffer_len
    → Models cap width fs s.que_h264
    → (in_node s.que_h264).locked ≡ false
    → (t : H264Rtp) × (parse_all (fragments h first others last) s ≡ done tt t)
      × Models cap width
          (Frames.push cap width (h ∷ joined (first ∷ (others ++ (last ∷ [])))) fs)
          t.que_h264
      × IsValid t
      × (t.fu_buffer_offset ≡ 0)
unfolding parse_all
parse_all-fragments h first others last s cap width fs byte v clear room m free =
    let facts = Headers_lem h byte in
    let (a, run_a, first_in) = parse_first h facts first s v clear (omega (arith, sizes)) in
    let (b, run_b, others_in) =
      parse_middles h facts others (fu_packet h (end_header h) last ∷ []) a first_in.valid
        (omega (arith, sizes, first_in.offset, first_in.room)) in
    let both = Collects-append (h ∷ first.bytes) (joined others) first_in others_in in
    let (t, run_t, m', v', clear') =
      parse_last h facts last b cap width fs both.valid
        (omega (arith, sizes, both.offset, both.room, length-append first.bytes (joined others)))
        (subst (Models cap width fs) (sym both.que) m)
        (subst (λ q. (in_node q).locked ≡ false) (sym both.que) free) in
    (
      t,
      bind_done (parse_payload _ _) _ run_a ∙ run_b ∙ bind_done (parse_payload _ _) _ run_t,
      subst (λ f. Models cap width (Frames.push cap width f fs) t.que_h264) (whole b both.got) m',
      v',
      clear',
    )
  where
    unit : joined (first ∷ (others ++ (last ∷ []))) ≡ (first.bytes ++ joined others) ++ last.bytes
    unit =
        ap (λ b. first.bytes ++ b) (joined-concat others last)
        ∙ sym (append_assoc first.bytes (joined others) last.bytes)

    sizes :
        length (joined (first ∷ (others ++ (last ∷ []))))
        ≡ length first.bytes + length (joined others) + length last.bytes
    sizes = omega (
      arith,
      ap length unit,
      length-append (first.bytes ++ joined others) last.bytes,
      length-append first.bytes (joined others),
    )

    whole :
        (b : H264Rtp)
        → collected b ≡ collected s ++ (h ∷ (first.bytes ++ joined others))
        → collected b ++ last.bytes ≡ h ∷ joined (first ∷ (others ++ (last ∷ [])))
    whole b e =
        ap (λ c. c ++ last.bytes) e
        ∙ ap (λ k. (take k s.fu_buffer ++ (h ∷ (first.bytes ++ joined others))) ++ last.bytes) clear
        ∙ ap (◌∷◌ h) (sym unit)
