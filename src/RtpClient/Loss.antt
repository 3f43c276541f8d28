-- ===== src/RtpClient/Loss.antt =====
-- `check_header` of my_rtsp_client/cRTPClient.cpp: which packets it accepts, and what `mlostCount` is
-- after a run of them.
use canok_rtsp_client.Base.{
  ℕ, suc, ◌+◌, ◌-◌, ◌==◌, ==_iff, ◌<◌, ◌≡◌, refl, sym, ◌∙◌, ◌&&◌, Bool, true, false, Bool-cases,
  inl, inr, Bytes, List, [], ◌∷◌, arith, length, ◌≢◌, ◌↔◌, ◌⊎◌,
}
use canok_rtsp_client.Base.Int.{ℤ, pos, ◌+ℤ◌, ◌-ℤ◌, int_laws}
use canok_rtsp_client.Base.Outcome.{M, done, pure, ◌>>=◌, bind_done}
use canok_rtsp_client.RtpClient.{RtpPackHeaderInfo, RtpClient, count_lost, check_header}

-- The test against the packet before.
abbrev pub same_stream : RtpPackHeaderInfo → RtpClient → Bool
same_stream info c =
    info.ssrc == c.last_rtp_info.ssrc && info.payload_type == c.last_rtp_info.payload_type

-- Counting a packet and what was lost before it is the distance of the two sequence numbers.
count_lost_lem :
    (seq last : ℕ) (lost : ℤ) → count_lost seq last lost +ℤ pos 1 ≡ lost +ℤ (pos seq -ℤ pos last)
unfolding count_lost
count_lost_lem seq last lost = grind int_laws

-- The state after an accepted packet that is not the first.
abbrev counted : RtpPackHeaderInfo → RtpClient → RtpClient
counted info c = record c {
  lost_count = count_lost info.sequence_number c.last_rtp_info.sequence_number c.lost_count;
  last_rtp_info = info;
}

pub check_header_next :
    (raw : Bytes) (info : RtpPackHeaderInfo) (c : RtpClient)
    → (c.fist_sequence_number == 0) ≡ false
    → same_stream info c ≡ true
    → check_header raw info c ≡ done true (counted info c)
unfolding check_header
check_header_next raw info c later same = rw (later, same)

pub check_header_other :
    (raw : Bytes) (info : RtpPackHeaderInfo) (c : RtpClient)
    → (c.fist_sequence_number == 0) ≡ false
    → same_stream info c ≡ false
    → check_header raw info c ≡ done false c
unfolding check_header
check_header_other raw info c later other = rw (later, other)

pub check_header_first :
    (raw : Bytes) (info : RtpPackHeaderInfo) (c : RtpClient)
    → (c.fist_sequence_number == 0) ≡ true
    → (c' : RtpClient) × (check_header raw info c ≡ done true c')
      × (c'.last_rtp_info ≡ info)
      × (c'.fist_sequence_number ≡ info.sequence_number)
      × (c'.lost_count ≡ c.lost_count)
unfolding check_header
check_header_first raw info c first = rw first (_, refl, refl, refl, refl)

-- One packet after another.
unfoldable pub check_all : Bytes → List RtpPackHeaderInfo → M RtpClient (Unit {0})
check_all raw [] = pure tt
check_all raw (info ∷ infos) = do _ ← check_header raw info; check_all raw infos

abbrev pub last_of : RtpPackHeaderInfo → List RtpPackHeaderInfo → RtpPackHeaderInfo
last_of first [] = first
last_of first (info ∷ infos) = last_of info infos

-- The packets of one stream: each has the SSRC and the payload type of the one before.
abbrev pub OneStream : RtpPackHeaderInfo → List RtpPackHeaderInfo → Type 0
OneStream first [] = Unit
OneStream first (info ∷ infos) =
    (info.ssrc ≡ first.ssrc) × (info.payload_type ≡ first.payload_type) × OneStream info infos

pub same_stream_lem :
    (info : RtpPackHeaderInfo) (c : RtpClient)
    → info.ssrc ≡ c.last_rtp_info.ssrc
    → info.payload_type ≡ c.last_rtp_info.payload_type
    → same_stream info c ≡ true
same_stream_lem info c p q = rw ((==_iff _ _).1 p, (==_iff _ _).1 q)

telescope :
    (lost lost1 lost2 : ℤ) (n seq last end : ℕ)
    → lost1 +ℤ pos 1 ≡ lost +ℤ (pos seq -ℤ pos last)
    → lost2 +ℤ pos n ≡ lost1 +ℤ (pos end -ℤ pos seq)
    → lost2 +ℤ pos (suc n) ≡ lost +ℤ (pos end -ℤ pos last)
telescope lost lost1 lost2 n seq last end p q = grind int_laws

-- Over any run of packets of the client's stream, in whatever order they come, every packet is
-- accepted, and `mlostCount` grows by the distance from the last sequence number before the run to the
-- last one in it, less the number of packets.
pub check_all-lost_count :
    (raw : Bytes) (infos : List RtpPackHeaderInfo) (c : RtpClient)
    → c.fist_sequence_number ≢ 0
    → OneStream c.last_rtp_info infos
    → (c' : RtpClient) × (check_all raw infos c ≡ done tt c')
      × (c'.last_rtp_info ≡ last_of c.last_rtp_info infos)
      × (c'.lost_count +ℤ pos (length infos)
          ≡ c.lost_count
            +ℤ (pos (last_of c.last_rtp_info infos).sequence_number
                -ℤ pos c.last_rtp_info.sequence_number))
unfolding check_all
check_all-lost_count raw [] c later same = (c, refl, refl, grind int_laws)
check_all-lost_count raw (info ∷ infos) c later (p, q, same) =
    let (c', run, last, lost) = check_all-lost_count raw infos (counted info c) later same in
    (
      c',
      bind_done (check_header raw info) (λ _. check_all raw infos)
            (check_header_next raw info c (ground arith) (same_stream_lem info c p q))
          ∙ run,
      last,
      telescope c.lost_count (counted info c).lost_count c'.lost_count (length infos)
          info.sequence_number c.last_rtp_info.sequence_number (last_of info infos).sequence_number
          (count_lost_lem info.sequence_number c.last_rtp_info.sequence_number c.lost_count) lost,
    )

-- The numbers left out of a run that only goes up.
abbrev pub missing : ℕ → List RtpPackHeaderInfo → ℕ
missing last [] = 0
missing last (info ∷ infos) = (info.sequence_number - last - 1) + missing info.sequence_number infos

abbrev pub Increasing : ℕ → List RtpPackHeaderInfo → Type 0
Increasing last [] = Unit
Increasing last (info ∷ infos) =
    (last < info.sequence_number) × Increasing info.sequence_number infos

missing_lem :
    (first : RtpPackHeaderInfo) (infos : List RtpPackHeaderInfo)
    → Increasing first.sequence_number infos
    → missing first.sequence_number infos + length infos + first.sequence_number
      ≡ (last_of first infos).sequence_number
missing_lem first [] up = omega arith
missing_lem first (info ∷ infos) (lt, up) = omega (arith, missing_lem info infos up)

exact :
    (lost start : ℤ) (n k last first : ℕ)
    → lost +ℤ pos n ≡ start +ℤ (pos last -ℤ pos first)
    → start ≡ pos 0
    → k + n + first ≡ last
    → lost ≡ pos k
exact lost start n k last first p z q = grind int_laws

-- From a client that has counted nothing, `mlostCount` is the number of packets that are missing from
-- a run of one stream, as long as the sequence numbers go up and the first is not 0.
pub check_all-missing :
    (raw : Bytes) (first : RtpPackHeaderInfo) (infos : List RtpPackHeaderInfo) (c : RtpClient)
    → c.fist_sequence_number ≡ 0
    → c.lost_count ≡ pos 0
    → first.sequence_number ≢ 0
    → OneStream first infos
    → Increasing first.sequence_number infos
    → (c' : RtpClient) × (check_all raw (first ∷ infos) c ≡ done tt c')
      × (c'.lost_count ≡ pos (missing first.sequence_number infos))
unfolding check_all
check_all-missing raw first infos c none_yet zero_lost some_number same up =
    let (c1, run1, last1, fist1, lost1) =
      check_header_first raw first c ((==_iff _ _).1 none_yet) in
    let later : c1.fist_sequence_number ≢ 0 = λ e. some_number (sym fist1 ∙ e) in
    let same1 : OneStream c1.last_rtp_info infos = rw last1 same in
    let (c', run, last, lost) = check_all-lost_count raw infos c1 later same1 in
    (
      c',
      bind_done (check_header raw first) (λ _. check_all raw infos) run1 ∙ run,
      exact c'.lost_count c1.lost_count (length infos) (missing first.sequence_number infos)
          (last_of first infos).sequence_number first.sequence_number (rw last1 at lost)
          (lost1 ∙ zero_lost) (missing_lem first infos up),
    )

-- `check_header` accepts the first packet, and then just those with the SSRC and the payload type of
-- the last one accepted. A rejected packet changes nothing; an accepted one is the new last packet.
-- The queues stay as they are.
pub check_header-verdict :
    (raw : Bytes) (info : RtpPackHeaderInfo) (c : RtpClient)
    → (ok : Bool) × (c' : RtpClient) × (check_header raw info c ≡ done ok c')
      × ((ok ≡ true) ↔ (
          (c.fist_sequence_number ≡ 0)
          ⊎ ((info.ssrc ≡ c.last_rtp_info.ssrc)
              × (info.payload_type ≡ c.last_rtp_info.payload_type))))
      × (ok ≡ false → c' ≡ c)
      × (ok ≡ true → c'.last_rtp_info ≡ info)
      × (c'.que_net ≡ c.que_net)
      × (c'.que_h264 ≡ c.que_h264)
unfolding check_header
check_header-verdict raw info c = elim (Bool-cases (c.fist_sequence_number == 0)) [
  | inl first ↦ rw first (true, _, refl, ground arith, (λ e. cc), (λ e. refl), refl, refl)
  | inr later ↦ elim (Bool-cases (same_stream info c)) [
    | inl same ↦ rw (later, same) (true, _, refl, ground arith, (λ e. cc), (λ e. refl), refl, refl)
    | inr other ↦
        rw (later, other) (false, _, refl, ground arith, (λ e. refl), (λ e. cc), refl, refl)
  ]
]
