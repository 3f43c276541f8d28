-- ===== src/RtspClient/Session/Answers.antt =====
-- A request of my_rtsp_client/cRTSPClient.cpp to a server that answers it: the request goes out and the reply
-- is accepted.
use canok_rtsp_client.Base.{
  ℕ, ◌+◌, ◌≤◌, ◌≡◌, refl, sym, ◌∙◌, subst, ◌⊎◌, inl, inr, some, Bytes, List, length, take,
}
use canok_rtsp_client.Base.Int.{ℤ}
use canok_rtsp_client.Base.Outcome.{done, ◌>>=◌, get, bind_done, zoom_done}
use canok_rtsp_client.Base.Returns.{Leaves}
use canok_rtsp_client.Macros.{ret_sucess, ret_err}
use canok_rtsp_client.Net.{Kernel, write_socket, make_socket_blocking}
use canok_rtsp_client.Protocol.{ReplyInfo, RequestType}
use canok_rtsp_client.Protocol.Buffer.{message}
use canok_rtsp_client.Protocol.Build.{build, build-message}
use canok_rtsp_client.Protocol.Room.{SameRoom, build-SameRoom}
use canok_rtsp_client.Protocol.Reply.{parse}
use canok_rtsp_client.Protocol.Reply.Verdict.{parse-verdict}
use canok_rtsp_client.RtspClient.Session.{Session, on_send, rtsp_request, send_lines}
use canok_rtsp_client.RtspClient.Session.Pieces.{Receives, padded, answered, rtsp_request-pieces}

-- The reads after sending `sent` receive a reply to the request that `parse` accepts, and what it stores
-- is as `P` says.
pub record Answer {K : Type 0} (kernel : Kernel K) (fd : ℤ) (k : K) (request : RequestType)
    (cseq : ℕ) (P : ReplyInfo → Type 0) (sent : Bytes) : Type 0 where
  pub text : Bytes
  pub after : K
  pub received :
      Receives kernel fd 5 0
        (make_socket_blocking kernel fd 50 (write_socket kernel fd sent k).1).1
        text
        after
  pub accepted :
      (reply : ReplyInfo)
      → (reply' : ReplyInfo) × (parse (padded text) (length text) request cseq reply
          ≡ done ret_sucess reply')
        × P reply'

-- The session after a request that was answered.
pub record IsAnswered {K : Type 0} (P : ReplyInfo → Type 0) (s t : Session K) : Type 0 where
  pub server : t.server ≡ s.server
  pub cseq : t.cseq ≡ s.cseq + 1
  pub socket : t.socket ≡ s.socket
  pub room : t.send.send_len ≡ s.send.send_len
  pub rtp : t.rtp ≡ s.rtp
  pub buffer : Bytes
  pub ready : t.rtsp_buffer ≡ some buffer
  pub code : t.reply.respond_code ≡ 200
  pub stored : P t.reply

module _ {K : Type 0} (kernel : Kernel K) (request : RequestType) (P : ReplyInfo → Type 0) where
  pub send_lines-IsAnswered :
      (lines : List Bytes) (s : Session K) {b : Bytes}
      → s.rtsp_buffer ≡ some b
      → length (message lines) ≤ s.send.send_len
      → Answer kernel s.socket s.system request s.cseq P (message lines)
      → (t : Session K) × (send_lines kernel lines request s ≡ done ret_sucess t) × IsAnswered P s t
  unfolding send_lines
  send_lines-IsAnswered lines s {b} ready fits answer =
      let (u, built, offset, text) = build-message lines s.send fits in
      let asking = record s { send = u } in
      let answer' = subst (Answer kernel s.socket s.system request s.cseq P) (sym text) answer in
      let (reply, run, stored) = answer'.accepted s.reply in
      (
        answered kernel (take u.send_offset u.send_buf) asking answer'.text answer'.after reply,
        bind_done (on_send (build lines))
              (λ _. get >>= λ s. rtsp_request kernel s.send.send_buf s.send.send_offset request)
              {s = s} (zoom_done (λ s. s.send) (λ b s. record s { send = b }) (build lines) built)
            ∙ rtsp_request-pieces kernel request asking u.send_buf u.send_offset ready
                answer'.received run,
        record {
          server = refl;
          cseq = refl;
          socket = refl;
          room = subst (Leaves SameRoom s.send) built (build-SameRoom lines s.send);
          rtp = refl;
          buffer = padded answer'.text;
          ready = refl;
          code = good_code reply (
              parse-verdict (padded answer'.text) (length answer'.text) request s.cseq s.reply reply
                ret_sucess run);
          stored = stored;
        },
      )
    where
      good_code :
          (c : ReplyInfo)
          → (ret_sucess ≡ ret_err) ⊎ ((ret_sucess ≡ ret_sucess) × (c.respond_code ≡ 200))
          → c.respond_code ≡ 200
      good_code c (inl e) = cc e
      good_code c (inr (_, e)) = e
