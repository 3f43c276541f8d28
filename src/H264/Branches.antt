-- ===== src/H264/Branches.antt =====
-- The branches of `parse_FU_A`, my_rtsp_client/cH264RTP.cpp, on a valid parser with enough room.
use Prim.Native.Nat.{bit_and}
use canok_rtsp_client.Base.{
  ℕ, ◌+◌, ◌==◌, ◌≤◌, ◌≡◌, ap, ◌∙◌, ==_iff, false, true, Bytes, [], ◌∷◌, ◌++◌, arith, length, take,
}
use canok_rtsp_client.Base.Int.{pos, ◌-ℤ◌, add-sub_pos, not-ltb_pos}
use canok_rtsp_client.Base.Outcome.{done, bind_done}
use canok_rtsp_client.Macros.{ret_sucess}
use canok_rtsp_client.H264.{
  H264Rtp, append, flush, fu_branch, fu_nal, fu_a, get_nal_type, parse_fu_a, parse_payload,
}
use canok_rtsp_client.H264.Collect.{
  IsValid, collected, appended, append_lem, appended-IsValid, collected-appended,
}

-- An FU-A packet goes through the branch of its header.
pub parse_fu :
    (ind hdr : ℕ) (d : Bytes) (n : ℕ) (s t : H264Rtp)
    → get_nal_type ind ≡ fu_a
    → fu_branch hdr (fu_nal ind hdr) d (pos n) s ≡ done tt t
    → parse_payload (ind ∷ hdr ∷ d) (pos (n + 2)) s ≡ done ret_sucess t
unfolding parse_payload
parse_fu ind hdr d n s t type e =
    rw type (bind_done (parse_fu_a (ind ∷ hdr ∷ d) (pos (n + 2))) _ fu)
  where
    fu : parse_fu_a (ind ∷ hdr ∷ d) (pos (n + 2)) s ≡ done ret_sucess t
    fu =
        bind_done (fu_branch hdr (fu_nal ind hdr) d (pos (n + 2) -ℤ pos 2)) _
          (ap (λ len. fu_branch hdr (fu_nal ind hdr) d len s) (add-sub_pos n 2) ∙ e)

-- The three branches on a valid buffer with enough room.
module _ (s : H264Rtp) (v : IsValid s) (hdr nal : ℕ) (d : Bytes) (n : ℕ)
    (there : n ≤ length d) where
  abbrev pub started : H264Rtp
  started = appended d n (appended (nal ∷ []) 1 s)

  pub branch_start :
      (bit_and hdr 0x80 == 0) ≡ false
      → s.fu_buffer_offset ≡ 0
      → n + 1 ≤ s.fu_buffer_len
      → (fu_branch hdr nal d (pos n) s ≡ done tt started)
        × IsValid started
        × (collected started ≡ nal ∷ take n d)
  unfolding fu_branch
  branch_start bit clear room = (
    rw (bit, (==_iff s.fu_buffer_offset 0).1 clear)
        (bind_done (append (nal ∷ []) (pos 1)) _
            (append_lem s v (nal ∷ []) 1 (omega arith) (omega arith))
          ∙ append_lem one one_valid d n (omega arith) there),
    appended-IsValid one one_valid d n (omega arith) there,
    collected-appended one one_valid d n (omega arith) there ∙ ap (λ b. b ++ take n d) nal_only,
  )
    where
      one : H264Rtp
      one = appended (nal ∷ []) 1 s

      one_valid : IsValid one
      one_valid = appended-IsValid s v (nal ∷ []) 1 (omega arith) (omega arith)

      nal_only : collected one ≡ nal ∷ []
      nal_only =
          collected-appended s v (nal ∷ []) 1 (omega arith) (omega arith)
          ∙ ap (λ k. take k s.fu_buffer ++ (nal ∷ [])) clear

  pub branch_middle :
      (bit_and hdr 0x80 == 0) ≡ true
      → (bit_and hdr 0x40 == 0) ≡ true
      → s.fu_buffer_offset + n ≤ s.fu_buffer_len
      → fu_branch hdr nal d (pos n) s ≡ done tt (appended d n s)
  unfolding fu_branch
  branch_middle start end room =
      rw (start, end, not-ltb_pos s.fu_buffer_offset n s.fu_buffer_len room)
        (append_lem s v d n room there)

  pub branch_end :
      (bit_and hdr 0x80 == 0) ≡ true
      → (bit_and hdr 0x40 == 0) ≡ false
      → s.fu_buffer_offset + n ≤ s.fu_buffer_len
      → {t : H264Rtp} → flush (appended d n s) ≡ done tt t
      → fu_branch hdr nal d (pos n) s ≡ done tt t
  unfolding fu_branch
  branch_end start end room e =
      rw (start, end)
        (bind_done (append d (pos n)) (λ _. flush) (append_lem s v d n room there) ∙ e)
