-- ===== src/TestMain/Frames.antt =====
-- What my_rtsp_client/test_main.cpp writes: the frames of the RTP client's queue, in order, as an H.264 byte
-- stream.
use canok_rtsp_client.Base.{
  ℕ, ◌≡◌, refl, sym, ap, ◌∙◌, le→leb, none, some, Bytes, [], ◌∷◌, ◌++◌, append_assoc, append-nil,
  length, take, arith, length-take, if◌then◌else◌,
}
use canok_rtsp_client.Base.Int.{ℤ, pos}
use canok_rtsp_client.Base.Outcome.{M, done, ◌>>=◌, pure, or_fault, bind_done, zoom, zoom_done}
use canok_rtsp_client.Queue.{CQueue, Lease, getbuffer, releasebuffer}
use canok_rtsp_client.Queue.Frames.{Frames}
use canok_rtsp_client.Queue.Valid.{Models}
use canok_rtsp_client.Queue.Lend.{
  SameLocks, released, released-Models, released-SameLocks, releasebuffer-released,
}
use canok_rtsp_client.Queue.Refine.{getbuffer_refines}
use canok_rtsp_client.RtpClient.{put_h264, rtp_request_frame_buffer, rtp_release_buffer}
use canok_rtsp_client.RtpClient.Lifecycle.{RtpObject}
use canok_rtsp_client.RtspClient.Session.{Session, on_rtp, on_object, load, store}
use canok_rtsp_client.RtspClient.Api.{
  on_client, rtp_buffer_of, rtp_release_of, api_request_frame_buffer, api_release_buffer,
}
use canok_rtsp_client.TestMain.{start_code, frame_at, write_frame, one_round, write_frames}

-- The byte stream of the frames: each behind a start code.
abbrev pub byte_stream : Frames → Bytes
byte_stream [] = []
byte_stream (f ∷ fs) = (start_code ++ f) ++ byte_stream fs

frame_at_lem : (mem f : Bytes) → take (length f) mem ≡ f → frame_at mem (pos (length f)) ≡ some f
unfolding frame_at
frame_at_lem mem f e =
    ap (λ t. if t then some (take (length f) mem) else none)
      (le→leb (length f) (length mem) (omega (arith, length-take (length f) mem, ap length e)))
    ∙ ap some e

module _ {K : Type 0} where
  -- The session whose RTP client has the frame queue `q`.
  abbrev pub with_queue : CQueue → RtpObject → Session K → Session K
  with_queue q o s = record s { rtp = some (record o { client = put_h264 q o.client }) }

  -- A call on the frame queue, through all the objects around it.
  queue_call :
      {A : Type 0} (m : M CQueue A) (s : Session K) (o : RtpObject) {a : A} {q : CQueue}
      → s.rtp ≡ some o
      → m o.client.que_h264 ≡ done a q
      → on_rtp (on_client (zoom (λ c. c.que_h264) put_h264 m)) s ≡ done a (with_queue q o s)
  queue_call m s o {a} {q} e run =
      ap (λ x. on_object x (on_client (zoom (λ c. c.que_h264) put_h264 m)) s) e
      ∙ zoom_done (load o) store (on_client (zoom (λ c. c.que_h264) put_h264 m)) {s = s} (
          zoom_done (λ d. d.object.client)
            (λ c d. record d { object = record (d.object) { client = c } })
            (zoom (λ c. c.que_h264) put_h264 m) {s = load o s}
            (zoom_done (λ c. c.que_h264) put_h264 m {s = o.client} run))

  requested :
      (s : Session K) (o : RtpObject) {l : Lease} {q : CQueue}
      → s.rtp ≡ some o
      → getbuffer o.client.que_h264 ≡ done l q
      → api_request_frame_buffer none (pos 0) s ≡ done l (with_queue q o s)
  unfolding api_request_frame_buffer rtp_request_frame_buffer
  requested s o e run = ap (λ x. rtp_buffer_of x none (pos 0) s) e ∙ queue_call getbuffer s o e run

  given_back :
      (i : ℤ) (s : Session K) (o : RtpObject) {n : ℕ} {q : CQueue}
      → s.rtp ≡ some o
      → releasebuffer i o.client.que_h264 ≡ done n q
      → api_release_buffer i s ≡ done (pos n) (with_queue q o s)
  unfolding api_release_buffer rtp_release_buffer
  given_back i s o {n} {q} e run =
      ap (λ x. rtp_release_of x i s) e
      ∙ bind_done (on_rtp (on_client (rtp_release_buffer i))) (λ n. pure (pos n)) {s = s}
          {t = with_queue q o s} {a = n} (queue_call (releasebuffer i) s o e run)

  one_round_lem :
      (cap width : ℕ) (f : Bytes) (fs : Frames) (out : Bytes) (s : Session K) (o : RtpObject)
      → s.rtp ≡ some o
      → Models cap width (f ∷ fs) o.client.que_h264
      → (q : CQueue) × (one_round out s ≡ done (out ++ (start_code ++ f)) (with_queue q o s))
        × Models cap width fs q
        × SameLocks o.client.que_h264 q
  unfolding one_round write_frame
  one_round_lem cap width f fs out s o e m =
      let l = getbuffer_refines cap width (f ∷ fs) o.client.que_h264 m in
      let lease : Lease = record {
        index = pos l.index;
        pdata = some l.bytes;
        plen = pos (length f);
      } in
      let o' : RtpObject = record o { client = put_h264 l.after o.client } in
      let q' = released l.index l.after in
      (
        q',
        bind_done (api_request_frame_buffer none (pos 0)) (λ l. write_frame out l l.pdata l.index)
              {s = s} {t = with_queue l.after o s} {a = lease} (requested s o e l.returns)
            ∙ bind_done (or_fault (frame_at l.bytes (pos (length f))))
                (λ frame.
                  api_release_buffer (pos l.index) >>= λ _. pure (out ++ (start_code ++ frame)))
                {s = with_queue l.after o s}
                (ap (λ x. or_fault x (with_queue l.after o s)) (frame_at_lem l.bytes f l.reads))
            ∙ bind_done (api_release_buffer (pos l.index)) (λ _. pure (out ++ (start_code ++ f)))
                {s = with_queue l.after o s}
                (given_back (pos l.index) (with_queue l.after o s) o' refl
                  (releasebuffer-released cap width fs l.after l.others l.index l.in_range)),
        released-Models cap width fs l.after l.others l.index l.in_range,
        released-SameLocks o.client.que_h264 l.after l.index
            (omega (arith, l.in_range, l.others.valid.slots, l.others.capacity)) l.was_free
            l.other_locks,
      )

  -- When the frame queue has the frames `fs` and then `rest`, as many rounds of the loop as there are
  -- frames in `fs` write just these, each behind a start code and whole, and leave the queue with `rest`.
  -- Every slot is given back: the same slots are locked as before. Nothing but the queue changes in the
  -- session.
  pub write_frames-byte_stream :
      (cap width : ℕ) (fs rest : Frames) (out : Bytes) (s : Session K) (o : RtpObject)
      → s.rtp ≡ some o
      → Models cap width (fs ++ rest) o.client.que_h264
      → (q : CQueue) × (write_frames (length fs) out s
          ≡ done (out ++ byte_stream fs) (with_queue q o s))
        × Models cap width rest q
        × SameLocks o.client.que_h264 q
  unfolding write_frames
  write_frames-byte_stream cap width [] rest out s o e m = (
    o.client.que_h264,
    ap (λ b. done b s) (sym (append-nil out)) ∙ ap (λ x. done (out ++ []) (record s { rtp = x })) e,
    m,
    λ j. refl,
  )
  write_frames-byte_stream cap width (f ∷ fs) rest out s o e m =
      let (q, run, m', locks) = one_round_lem cap width f (fs ++ rest) out s o e m in
      let o' : RtpObject = record o { client = put_h264 q o.client } in
      let (q', run', m'', locks') =
        write_frames-byte_stream cap width fs rest (out ++ (start_code ++ f)) (with_queue q o s) o'
          refl m' in
      (
        q',
        bind_done (one_round out) (write_frames (length fs)) {s = s} run
            ∙ run'
            ∙ ap (λ b. done b (with_queue q' o s))
                (append_assoc out (start_code ++ f) (byte_stream fs)),
        m'',
        λ j. locks' j ∙ locks j,
      )
