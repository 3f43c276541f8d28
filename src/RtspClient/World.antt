-- ===== src/RtspClient/World.antt =====
-- A small system to run the session of my_rtsp_client/cRTSPClient.cpp on: a server whose answers are given,
-- and what has been sent to it.
use canok_rtsp_client.Base.{refl, Bool, true, Option, none, some, Bytes, List, [], ◌∷◌}
use canok_rtsp_client.Base.Int.{pos}
use canok_rtsp_client.Net.{Kernel}
use canok_rtsp_client.Net.Observed.{Quiet, Fixed}

-- `sent`: the messages, the latest first. `answers`: what the next reads receive. `ends`: whether a
-- thread that is joined ends.
pub record World : Type 0 where
  pub sent : List Bytes
  pub answers : List (Option Bytes)
  pub ends : Bool

abbrev pub next_answer : List (Option Bytes) → Option Bytes
next_answer [] = none
next_answer (a ∷ rest) = a

abbrev pub later_answers : List (Option Bytes) → List (Option Bytes)
later_answers [] = []
later_answers (a ∷ rest) = rest

abbrev pub world : Kernel World
world = record {
  socket = λ w. (pos 3, w);
  set_no_signal = λ fd w. w;
  bind_any = λ fd w. (pos 0, w);
  connect = λ fd host port w. (pos 0, w);
  close = λ fd w. (pos 0, w);
  sock_port = λ fd w. some 14875;
  rcvbuf = λ fd w. some 212992;
  set_rcvbuf = λ fd n w. (true, w);
  recv = λ fd n w. (next_answer w.answers, record w { answers = later_answers w.answers });
  send = λ fd b w. (pos 0, record w { sent = b ∷ w.sent });
  get_flags = λ fd w. 2;
  set_flags = λ fd n w. (true, w);
  set_timeouts = λ fd seconds micros w. w;
  open_log = λ w. (true, w);
  create_thread = λ w. (true, w);
  join_thread = λ reads w. (w.ends, w);
}

abbrev pub what_was_sent : World → List Bytes
what_was_sent w = w.sent

abbrev pub one_more : Bytes → List Bytes → List Bytes
one_more b bs = b ∷ bs

pub world-Quiet : Quiet world what_was_sent one_more
world-Quiet = record {
  send_adds = λ fd b w. refl;
  recv_keeps = λ fd n w. refl;
  flags_keep = λ fd n w. refl;
  timeouts_keep = λ fd a b w. refl;
  rcvbuf_keeps = λ fd n w. refl;
  log_keeps = λ w. refl;
  create_keeps = λ w. refl;
  join_keeps = λ reads w. refl;
}

pub world-Fixed : Fixed world what_was_sent
world-Fixed = record {
  socket_keeps = λ w. refl;
  signal_keeps = λ fd w. refl;
  bind_keeps = λ fd w. refl;
  connect_keeps = λ fd host port w. refl;
  close_keeps = λ fd w. refl;
}
