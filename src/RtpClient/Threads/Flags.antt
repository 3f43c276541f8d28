-- ===== src/RtpClient/Threads/Flags.antt =====
-- A receive with its push, and a call of `parse`, of my_rtsp_client/cRTPClient.cpp leave the flags of the
-- threads as they are.
use canok_rtsp_client.Base.{
  ℕ, ◌≡◌, refl, ◌∙◌, if◌then◌else◌, ltb, ◌==◌, ◌&&◌, Bool, true, false, Option, none, some, Bytes,
  min, length, drop,
}
use canok_rtsp_client.Base.Int.{ℤ, pos, negsuc, ◌-ℤ◌}
use canok_rtsp_client.Base.Memory.{memcpy}
use canok_rtsp_client.Base.Outcome.{
  M, Outcome, done, waits, fault, ◌>>=◌, pure, get, or_fault, zoom,
}
use canok_rtsp_client.Base.Returns.{Leaves, Runs, Runs-bind, Runs-zoom}
use canok_rtsp_client.Macros.{ret_sucess}
use canok_rtsp_client.Queue.{Lease, push, getbuffer, releasebuffer}
use canok_rtsp_client.H264.{parse_payload}
use canok_rtsp_client.RtpClient.{
  RtpClient, RtpPackHeaderInfo, FuBuffer, read_header, set_header_info, check_first, check_next,
  check_header, count_lost, load, store, put_net, parse_with, parse_leased, release_net,
  parse_lease, parse, push_received, read_step,
}

abbrev pub SameFlags : RtpClient → RtpClient → Type 0
SameFlags c d = (d.read ≡ c.read) × (d.parsing ≡ c.parsing)

then_flags :
    {A B : Type 0} (m : M RtpClient A) (f : A → M RtpClient B)
    → Runs SameFlags m
    → ((a : A) → Runs SameFlags (f a))
    → Runs SameFlags (m >>= f)
then_flags = Runs-bind SameFlags (λ a b c p q. (q.0 ∙ p.0, q.1 ∙ p.1))

same : (c : RtpClient) → SameFlags c c
same c = (refl, refl)

or_fault-SameFlags : {A : Type 0} (o : Option A) → Runs SameFlags (or_fault o)
or_fault-SameFlags none c = tt
or_fault-SameFlags (some a) c = same c

any-Leaves : {A T : Type 0} (t : T) (o : Outcome T A) → Leaves (λ _ _. Unit) t o
any-Leaves t (done a u) = tt
any-Leaves t (waits u) = tt
any-Leaves t fault = tt

-- A call on a part that does not hold the flags.
zoom-SameFlags :
    {T A : Type 0} (part : RtpClient → T) (put : T → RtpClient → RtpClient) (m : M T A)
    → ((c : RtpClient) (t : T) → SameFlags c (put t c))
    → Runs SameFlags (zoom part put m)
zoom-SameFlags part put m keeps c =
    Runs-zoom SameFlags (λ _ _. Unit) part put m (λ c t _. keeps c t) (λ t. any-Leaves t (m t)) c

check_header-SameFlags :
    (raw : Bytes) (info : RtpPackHeaderInfo) → Runs SameFlags (check_header raw info)
unfolding check_header
check_header-SameFlags raw info c = by_first (c.fist_sequence_number == 0)
  where
    by_stream :
        (ok : Bool)
        → Leaves SameFlags c (
            if ok
            then done true (record c {
              lost_count =
                  count_lost info.sequence_number c.last_rtp_info.sequence_number c.lost_count;
              last_rtp_info = info;
            })
            else done false c)
    by_stream true = same c
    by_stream false = same c

    by_first :
        (first : Bool)
        → Leaves SameFlags c (if first then check_first raw info c else check_next info c)
    by_first true = same c
    by_first false =
        by_stream
          (info.ssrc == c.last_rtp_info.ssrc && info.payload_type == c.last_rtp_info.payload_type)

parse_with-SameFlags :
    (o : Option FuBuffer) (mem : Bytes) (len : ℤ) → Runs SameFlags (parse_with o mem len)
unfolding parse_with
parse_with-SameFlags none mem len c = same c
parse_with-SameFlags (some p) mem len c =
    zoom-SameFlags (load p) store (parse_payload mem len) (λ c t. same c) c

parse_leased-SameFlags :
    (raw : Bytes) (garbage : RtpPackHeaderInfo) (mem : Bytes) (len : ℤ)
    → Runs SameFlags (parse_leased raw garbage mem len)
unfolding parse_leased set_header_info
parse_leased-SameFlags raw garbage mem len =
    then_flags (or_fault (read_header mem) >>= λ i. pure (ret_sucess, i)) checked
      (then_flags (or_fault (read_header mem)) (λ i. pure (ret_sucess, i))
        (or_fault-SameFlags (read_header mem)) (λ i. same))
      (λ r.
        then_flags (check_header raw r.1) taken (check_header-SameFlags raw r.1) taken-SameFlags)
  where
    passed : Bool → RtpClient → M RtpClient ℤ
    passed ok c =
        if ok then parse_with c.rtp_parse (drop 12 mem) (len -ℤ pos 12) else pure ret_sucess

    taken : Bool → M RtpClient (Unit {0})
    taken ok = do c ← get; _ ← passed ok c; pure tt

    checked : ℤ × RtpPackHeaderInfo → M RtpClient (Unit {0})
    checked r = check_header raw r.1 >>= taken

    passed-SameFlags : (ok : Bool) (d : RtpClient) → Runs SameFlags (passed ok d)
    passed-SameFlags true d = parse_with-SameFlags d.rtp_parse (drop 12 mem) (len -ℤ pos 12)
    passed-SameFlags false d = same

    taken-SameFlags : (ok : Bool) → Runs SameFlags (taken ok)
    taken-SameFlags ok c =
        then_flags (passed ok c) (λ _. pure tt) (passed-SameFlags ok c) (λ _. same) c

parse_lease-SameFlags :
    (raw : Bytes) (garbage : RtpPackHeaderInfo) (l : Lease) (o : Option Bytes) (i : ℤ)
    → Runs SameFlags (parse_lease raw garbage l o i)
unfolding parse_lease release_net
parse_lease-SameFlags raw garbage l (some mem) (pos i) c =
    then_flags (parse_leased raw garbage mem l.plen)
      (λ _. release_net (pos i) >>= λ _. pure ret_sucess)
      (parse_leased-SameFlags raw garbage mem l.plen)
      (λ _.
        then_flags (release_net (pos i)) (λ _. pure ret_sucess)
          (zoom-SameFlags (λ c. c.que_net) put_net (releasebuffer (pos i)) (λ c q. same c))
          (λ _. same))
      c
parse_lease-SameFlags raw garbage l none (pos i) c = tt
parse_lease-SameFlags raw garbage l (some mem) (negsuc i) c = same c
parse_lease-SameFlags raw garbage l none (negsuc i) c = same c

pub parse-SameFlags :
    (raw : Bytes) (garbage : RtpPackHeaderInfo) → Runs SameFlags (parse raw garbage)
unfolding parse
parse-SameFlags raw garbage =
    then_flags (zoom (λ c. c.que_net) put_net getbuffer)
      (λ l. parse_lease raw garbage l l.pdata l.index)
      (zoom-SameFlags (λ c. c.que_net) put_net getbuffer (λ c q. same c))
      (λ l. parse_lease-SameFlags raw garbage l l.pdata l.index)

push_received-SameFlags : (n : ℕ) (b : Bytes) → Runs SameFlags (push_received n b)
unfolding push_received
push_received-SameFlags n b c = by_size (ltb 0 n)
  where
    by_size :
        (t : Bool)
        → Leaves SameFlags c (
            (if t
                then zoom (λ c. c.que_net) put_net (push (some b) (pos n)) >>= (λ _. pure tt)
                else pure tt)
              c)
    by_size false = same c
    by_size true =
        then_flags (zoom (λ c. c.que_net) put_net (push (some b) (pos n))) (λ _. pure tt)
          (zoom-SameFlags (λ c. c.que_net) put_net (push (some b) (pos n)) (λ c q. same c))
          (λ _. same) c

pub read_step-SameFlags :
    (buffer datagram : Bytes) → Runs SameFlags (read_step buffer (some datagram))
unfolding read_step
read_step-SameFlags buffer datagram =
    then_flags (or_fault (memcpy buffer 0 datagram (pos (min 2000 (length datagram)))))
      (push_received (min 2000 (length datagram)))
      (or_fault-SameFlags (memcpy buffer 0 datagram (pos (min 2000 (length datagram)))))
      (push_received-SameFlags (min 2000 (length datagram)))
