-- ===== src/RtpClient/Reader.antt =====
-- A round of `read_thread` of my_rtsp_client/cRTPClient.cpp.
use canok_rtsp_client.Base.{
  ℕ, ◌<◌, ◌≤◌, ◌≡◌, sym, ap, subst, ◌∙◌, min, Bytes, [], ◌∷◌, ◌++◌, length, take, drop, take_all,
  take-append, length-append, length-take, false, arith, some, none, lt→ltb,
}
use canok_rtsp_client.Base.Int.{ℤ, pos}
use canok_rtsp_client.Base.Memory.{memcpy, memcpy_start}
use canok_rtsp_client.Base.Outcome.{
  Outcome, done, fault, pure, ◌>>=◌, or_fault, bind_done, bind_fault, zoom, zoom_done,
}
use canok_rtsp_client.Queue.{CQueue, push}
use canok_rtsp_client.Queue.Frames
use canok_rtsp_client.Queue.Frames.{Frames}
use canok_rtsp_client.Queue.Valid.{Models}
use canok_rtsp_client.Queue.Push.{in_node}
use canok_rtsp_client.Queue.Refine.{push_refines}
use canok_rtsp_client.RtpClient.{RtpClient, put_net, push_received, read_step}

pub pushes_whole :
    (buffer datagram : Bytes) (c : RtpClient) (cap : ℕ) (fs : Frames)
    → length buffer ≡ 1500
    → length datagram ≤ 1500
    → 0 < length datagram
    → Models cap 1500 fs c.que_net
    → (in_node c.que_net).locked ≡ false
    → (q : CQueue) × (read_step buffer (some datagram) c ≡ done tt (put_net q c))
      × Models cap 1500 (Frames.push cap 1500 datagram fs) q
unfolding read_step push_received
pushes_whole buffer datagram c cap fs room short some_byte m free =
    let n = length datagram in
    let received = take n datagram ++ drop n buffer in
    let (q, run, m') =
      push_refines cap 1500 fs c.que_net received n m
        (omega (arith, length-append (take n datagram) (drop n buffer), length-take n datagram))
        free in
    (
      q,
      ap (λ k. (or_fault {S = RtpClient} (memcpy buffer 0 datagram (pos k)) >>= push_received k) c)
            whole
          ∙ bind_done (or_fault (memcpy buffer 0 datagram (pos n))) (push_received n) (
              ap (λ o. or_fault {S = RtpClient} o c)
                (memcpy_start buffer datagram n (omega arith) (omega arith)))
          ∙ pushed received q run,
      subst (λ f. Models cap 1500 (Frames.push cap 1500 f fs) q) same m',
    )
  where
    whole : min 2000 (length datagram) ≡ length datagram
    whole = omega arith

    all_of : take (length datagram) datagram ≡ datagram
    all_of = take_all (length datagram) datagram (omega arith)

    same :
        take (length datagram) (take (length datagram) datagram ++ drop (length datagram) buffer)
        ≡ datagram
    same =
        take-append (take (length datagram) datagram) (drop (length datagram) buffer)
          (length datagram) (sym (ap length all_of))
        ∙ all_of

    pushed :
        (b : Bytes) (q : CQueue)
        → {r : ℤ} → push (some b) (pos (length datagram)) c.que_net ≡ done r q
        → push_received (length datagram) b c ≡ done tt (put_net q c)
    pushed b q run = rw (lt→ltb 0 (length datagram) some_byte) (
        bind_done (zoom (λ c. c.que_net) put_net (push (some b) (pos (length datagram))))
          (λ _. pure tt)
          (zoom_done (λ c. c.que_net) put_net (push (some b) (pos (length datagram))) run))

-- What a round does with a datagram: an empty one is ignored, any other one is pushed.
abbrev pub Taken : ℕ → Frames → RtpClient → Bytes → Outcome RtpClient (Unit {0}) → Type 0
Taken cap fs c [] r = r ≡ done tt c
Taken cap fs c (b ∷ d) r =
    (q : CQueue) × (r ≡ done tt (put_net q c)) × Models cap 1500 (Frames.push cap 1500 (b ∷ d) fs) q

-- A datagram of 1 to 1500 bytes is pushed whole into the network queue, and nothing else changes; an empty
-- one changes nothing at all. The queue's next slot is free.
pub read_step-pushes :
    (buffer datagram : Bytes) (c : RtpClient) (cap : ℕ) (fs : Frames)
    → length buffer ≡ 1500
    → length datagram ≤ 1500
    → Models cap 1500 fs c.que_net
    → (in_node c.que_net).locked ≡ false
    → Taken cap fs c datagram (read_step buffer (some datagram) c)
unfolding read_step push_received
read_step-pushes buffer [] c cap fs room short m free =
    bind_done (or_fault (memcpy buffer 0 [] (pos 0))) (push_received 0) (
      ap (λ o. or_fault {S = RtpClient} o c) (memcpy_start buffer [] 0 (omega arith) (omega arith)))
read_step-pushes buffer (b ∷ d) c cap fs room short m free =
    pushes_whole buffer (b ∷ d) c cap fs room short (omega arith) m free

-- A datagram of more than 1500 bytes overflows the reader's buffer.
pub read_step_overflow :
    (buffer datagram : Bytes) (c : RtpClient)
    → length buffer ≡ 1500
    → 1500 < length datagram
    → read_step buffer (some datagram) c ≡ fault
unfolding read_step
read_step_overflow buffer datagram c room long =
    bind_fault (or_fault (memcpy buffer 0 datagram (pos (min 2000 (length datagram)))))
      (push_received (min 2000 (length datagram))) (ap (λ o. or_fault {S = RtpClient} o c) past)
  where
    past : memcpy buffer 0 datagram (pos (min 2000 (length datagram))) ≡ none
    past = ground arith
