-- ===== src/H264/Kept.antt =====
-- FU-A packets that fit, in `parse_payload` of my_rtsp_client/cH264RTP.cpp: no fault, and the parser and its
-- queue stay valid.
use Prim.Native.Nat.{bit_and}
use canok_rtsp_client.Base.{
  ℕ, ◌+◌, ◌-◌, ◌==◌, ==_iff, ◌≤◌, ◌≡◌, refl, sym, subst, ◌∙◌, Bool, false, true, Bool-cases, inl,
  inr, Bytes, [], ◌∷◌, arith, length, dec_le,
}
use canok_rtsp_client.Base.Int.{pos, not-ltb_pos, ltb_pos, sub_pos}
use canok_rtsp_client.Base.Outcome.{Outcome, done, ◌>>◌, bind_done}
use canok_rtsp_client.Macros.{ret_sucess}
use canok_rtsp_client.H264.{
  NalType, fu_a, single, H264Rtp, append, flush, fu_start, fu_end, fu_middle, fu_branch, fu_nal,
  get_nal_type, parse_payload,
}
use canok_rtsp_client.H264.Collect.{IsValid, appended, append_lem, appended-IsValid, flush_lem}
use canok_rtsp_client.H264.Branches.{parse_fu}
use canok_rtsp_client.Queue.Frames.{Frames}
use canok_rtsp_client.Queue.Valid.{Models}
use canok_rtsp_client.Queue.Push.{in_node}

-- A call that returns, and leaves a valid parser over a queue that implements some frames.
abbrev pub Keeps : ℕ → ℕ → {A : Type 0} → A → Outcome H264Rtp A → Type 0
Keeps cap width a r =
    (t : H264Rtp) × (fs' : Frames) × (r ≡ done a t) × IsValid t × Models cap width fs' t.que_h264

abbrev pub is_other : NalType → Bool
is_other fu_a = false
is_other single = false
is_other _ = true

-- An FU-A packet with the end bit and no start bit.
abbrev pub IsEnd : ℕ → ℕ → Type 0
IsEnd ind hdr =
    (get_nal_type ind ≡ fu_a) × ((bit_and hdr 0x80 == 0) ≡ true) × ((bit_and hdr 0x40 == 0) ≡ false)

module _ (s : H264Rtp) (cap width : ℕ) (fs : Frames) (v : IsValid s)
    (m : Models cap width fs s.que_h264) (free : (in_node s.que_h264).locked ≡ false) where
  flush-Keeps : (t : H264Rtp) → IsValid t → t.que_h264 ≡ s.que_h264 → Keeps cap width tt (flush t)
  flush-Keeps t v' e =
      let (q, run, m') =
        flush_lem t cap width fs v' (subst (Models cap width fs) (sym e) m)
          (subst (λ q. (in_node q).locked ≡ false) (sym e) free) in
      (
        record t { que_h264 = q; fu_buffer_offset = 0 },
        _,
        run,
        record { sized = v'.sized; inside = omega arith },
        m',
      )

  append-Keeps :
      (d : Bytes) (n : ℕ)
      → n ≤ length d
      → s.fu_buffer_offset + n ≤ s.fu_buffer_len
      → Keeps cap width tt (append d (pos n) s)
  append-Keeps d n there fits =
      (appended d n s, fs, append_lem s v d n fits there, appended-IsValid s v d n fits there, m)

  append-flush-Keeps :
      (d : Bytes) (n : ℕ)
      → n ≤ length d
      → s.fu_buffer_offset + n ≤ s.fu_buffer_len
      → Keeps cap width tt ((append d (pos n) >> flush) s)
  append-flush-Keeps d n there fits =
      let (t, fs', run, v', m') =
        flush-Keeps (appended d n s) (appended-IsValid s v d n fits there) refl in
      (
        t,
        fs',
        bind_done (append d (pos n)) (λ _. flush) (append_lem s v d n fits there) ∙ run,
        v',
        m',
      )

  middle-Keeps : (d : Bytes) (n : ℕ) → n ≤ length d → Keeps cap width tt (fu_middle d (pos n) s)
  unfolding fu_middle
  middle-Keeps d n there = elim (dec_le (s.fu_buffer_offset + n) s.fu_buffer_len) [
    | yes fits ↦
        rw (not-ltb_pos s.fu_buffer_offset n s.fu_buffer_len fits) (append-Keeps d n there fits)
    | no over ↦
        rw
          (
            ltb_pos s.fu_buffer_offset n s.fu_buffer_len (omega arith),
            sub_pos s.fu_buffer_len s.fu_buffer_offset v.inside,
          )
          (append-flush-Keeps d (s.fu_buffer_len - s.fu_buffer_offset) (omega (arith, v.inside))
            (omega (arith, v.inside)))
  ]

  end-Keeps :
      (d : Bytes) (n : ℕ)
      → n ≤ length d
      → s.fu_buffer_offset + n ≤ s.fu_buffer_len
      → Keeps cap width tt (fu_end d (pos n) s)
  unfolding fu_end
  end-Keeps d n there fits = append-flush-Keeps d n there fits

-- The first packet of a unit, with an empty buffer.
start_clear-Keeps :
    (s : H264Rtp) (cap width : ℕ) (fs : Frames) (nal : ℕ) (d : Bytes) (n : ℕ)
    → IsValid s
    → Models cap width fs s.que_h264
    → s.fu_buffer_offset ≡ 0
    → n ≤ length d
    → n + 1 ≤ s.fu_buffer_len
    → Keeps cap width tt ((append (nal ∷ []) (pos 1) >> append d (pos n)) s)
start_clear-Keeps s cap width fs nal d n v m clear there room = (
  appended d n one,
  fs,
  bind_done (append (nal ∷ []) (pos 1)) (λ _. append d (pos n))
        (append_lem s v (nal ∷ []) 1 (omega arith) (omega arith))
      ∙ append_lem one one_valid d n (omega arith) there,
  appended-IsValid one one_valid d n (omega arith) there,
  m,
)
  where
    one : H264Rtp
    one = appended (nal ∷ []) 1 s

    one_valid : IsValid one
    one_valid = appended-IsValid s v (nal ∷ []) 1 (omega arith) (omega arith)

start-Keeps :
    (s : H264Rtp) (cap width : ℕ) (fs : Frames) (nal : ℕ) (d : Bytes) (n : ℕ)
    → IsValid s
    → Models cap width fs s.que_h264
    → (in_node s.que_h264).locked ≡ false
    → n ≤ length d
    → n + 1 ≤ s.fu_buffer_len
    → Keeps cap width tt (fu_start nal d (pos n) s)
unfolding fu_start
start-Keeps s cap width fs nal d n v m free there room =
    elim (Bool-cases (s.fu_buffer_offset == 0)) [
      | inl clear ↦
          rw clear (start_clear-Keeps s cap width fs nal d n v m ((==_iff _ _).0 clear) there room)
      | inr left ↦ rw left (
          let (q, run, m') = flush_lem s cap width fs v m free in
          let t = record s { que_h264 = q; fu_buffer_offset = 0 } in
          let (u, fs', run', v', m'') =
            start_clear-Keeps t cap width _ nal d n
              (record { sized = v.sized; inside = omega arith }) m' refl there room in
          (
            u,
            fs',
            bind_done flush (λ _. append (nal ∷ []) (pos 1) >> append d (pos n)) run ∙ run',
            v',
            m'',
          ))
    ]

-- Every FU-A packet of at least two bytes that fits in an empty buffer, except an end packet that
-- does not fit behind what has been collected.
pub branch-Keeps :
    (s : H264Rtp) (cap width : ℕ) (fs : Frames) (hdr nal : ℕ) (d : Bytes) (n : ℕ)
    → IsValid s
    → Models cap width fs s.que_h264
    → (in_node s.que_h264).locked ≡ false
    → n ≤ length d
    → n + 1 ≤ s.fu_buffer_len
    → ((bit_and hdr 0x80 == 0) ≡ true
        → (bit_and hdr 0x40 == 0) ≡ false
        → s.fu_buffer_offset + n ≤ s.fu_buffer_len)
    → Keeps cap width tt (fu_branch hdr nal d (pos n) s)
unfolding fu_branch
branch-Keeps s cap width fs hdr nal d n v m free there room fits =
    elim (Bool-cases (bit_and hdr 0x80 == 0)) [
      | inr start ↦ rw start (start-Keeps s cap width fs nal d n v m free there room)
      | inl later ↦ elim (Bool-cases (bit_and hdr 0x40 == 0)) [
        | inr end ↦ rw (later, end) (end-Keeps s cap width fs v m free d n there (fits later end))
        | inl middle ↦ rw (later, middle) (middle-Keeps s cap width fs v m free d n there)
      ]
    ]

pub fu-Keeps :
    (s : H264Rtp) (cap width : ℕ) (ind hdr : ℕ) (d : Bytes) (n : ℕ)
    → get_nal_type ind ≡ fu_a
    → Keeps cap width tt (fu_branch hdr (fu_nal ind hdr) d (pos n) s)
    → Keeps cap width ret_sucess (parse_payload (ind ∷ hdr ∷ d) (pos (n + 2)) s)
fu-Keeps s cap width ind hdr d n type (t, fs', run, v, m) =
    (t, fs', parse_fu ind hdr d n s t type run, v, m)
