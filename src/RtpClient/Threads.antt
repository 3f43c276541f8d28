-- ===== src/RtpClient/Threads.antt =====
-- `read_thread`, `parse_thread` and `rtp_stop` of my_rtsp_client/cRTPClient.cpp side by side. A step is a test of
-- a flag, a receive with its push, a call of `parse`, the reset of the flags, or the return of a `pthread_join`.
pub mod Flags
pub mod Ending
mod Tests
use canok_rtsp_client.Base.{
  ℕ, ◌≡◌, ◌≢◌, refl, sym, ap, ◌∙◌, subst, if◌then◌else◌, ltb, ◌==◌, ◌&&◌, Bool, true, false, Option,
  none, some, Bytes, [], min, length, drop,
}
use canok_rtsp_client.Base.Int.{ℤ, pos, negsuc, ◌-ℤ◌}
use canok_rtsp_client.Base.Memory.{memcpy}
use canok_rtsp_client.Base.Outcome.{
  M, Outcome, done, waits, fault, ◌>>=◌, ◌>>◌, pure, get, or_fault, zoom, bind_waits, zoom_waits,
}
use canok_rtsp_client.Base.Returns.{Leaves, Runs, Runs-bind, Runs-zoom}
use canok_rtsp_client.Macros.{ret_sucess}
use canok_rtsp_client.Queue.{CQueue, Lease, push, getbuffer, releasebuffer}
use canok_rtsp_client.Queue.Valid.{Models}
use canok_rtsp_client.Queue.Lend.{getbuffer_empty}
use canok_rtsp_client.H264.{parse_payload}
use canok_rtsp_client.RtpClient.{
  RtpClient, RtpPackHeaderInfo, FuBuffer, read_header, set_header_info, check_first, check_next,
  check_header, load, store, put_net, parse_with, parse_leased, release_net, parse_lease, parse,
  push_received, read_step, reset_flags,
}

pub data Reader : Type 0 where
  read_test receiving read_ended : Reader

pub data Parser : Type 0 where
  parse_test in_parse parse_ended : Parser

-- Where the thread that calls `rtp_stop` is.
pub data Stopper : Type 0 where
  not_called joining_read joining_parse stop_returned : Stopper

-- The shared object, the reader's array, and where the threads are.
pub record Threads : Type 0 where
  pub client : RtpClient
  pub buffer : Bytes
  pub reader : Reader
  pub parser : Parser
  pub stopper : Stopper

module _ (raw : Bytes) (garbage : RtpPackHeaderInfo) where
  -- A thread that sleeps in `readSocket`, in `parse` or in `pthread_join` makes no step.
  pub data Step (s t : Threads) : Type 0 where
    read_on :
        s.reader ≡ read_test → s.client.read ≡ true → t ≡ record s { reader = receiving } → Step s t
    read_off :
        s.reader ≡ read_test
        → s.client.read ≡ false
        → t ≡ record s { reader = read_ended }
        → Step s t
    receive :
        (datagram : Bytes) (c : RtpClient)
        → s.reader ≡ receiving
        → read_step s.buffer (some datagram) s.client ≡ done tt c
        → t ≡ record s { client = c; reader = read_test }
        → Step s t
    receive_fails : s.reader ≡ receiving → t ≡ record s { reader = read_test } → Step s t
    parse_on :
        s.parser ≡ parse_test
        → s.client.parsing ≡ true
        → t ≡ record s { parser = in_parse }
        → Step s t
    parse_off :
        s.parser ≡ parse_test
        → s.client.parsing ≡ false
        → t ≡ record s { parser = parse_ended }
        → Step s t
    parse_returns :
        (r : ℤ) (c : RtpClient)
        → s.parser ≡ in_parse
        → parse raw garbage s.client ≡ done r c
        → t ≡ record s { client = c; parser = parse_test }
        → Step s t
    stop_calls :
        s.stopper ≡ not_called
        → t ≡ record s { client = reset_flags s.client; stopper = joining_read }
        → Step s t
    join_read :
        s.stopper ≡ joining_read
        → s.reader ≡ read_ended
        → t ≡ record s { stopper = joining_parse }
        → Step s t
    join_parse :
        s.stopper ≡ joining_parse
        → s.parser ≡ parse_ended
        → t ≡ record s { stopper = stop_returned }
        → Step s t

  pub data Run (s : Threads) : Threads → Type 0 where
    here : Run s s
    next : {t u : Threads} → Run s t → Step t u → Run s u

  -- No datagram is received.
  abbrev pub IsSilent : {s t : Threads} → Step s t → Type 0
  IsSilent (receive d c at run e) = ⊥
  IsSilent _ = Unit

  pub data SilentRun (s : Threads) : Threads → Type 0 where
    rest : SilentRun s s
    silent : {t u : Threads} → SilentRun s t → (m : Step t u) → IsSilent m → SilentRun s u

  -- The parsing thread sleeps on an empty network queue, and `rtp_stop` has not returned.
  pub record IsWaiting (cap width : ℕ) (s : Threads) : Type 0 where
    pub parser : s.parser ≡ in_parse
    pub empty : Models cap width [] s.client.que_net
    pub stopping : s.stopper ≢ stop_returned

  parse_sleeps :
      (cap width : ℕ) (c : RtpClient)
      → Models cap width [] c.que_net
      → parse raw garbage c ≡ waits (put_net c.que_net c)
  unfolding parse
  parse_sleeps cap width c m =
      bind_waits (zoom (λ c. c.que_net) put_net getbuffer) _
        (zoom_waits (λ c. c.que_net) put_net getbuffer (getbuffer_empty cap width c.que_net m))

  module _ (cap width : ℕ) where
    Step-IsWaiting :
        {s t : Threads} (m : Step s t) → IsSilent m → IsWaiting cap width s → IsWaiting cap width t
    Step-IsWaiting (read_on at on e) q w =
        subst (IsWaiting cap width) (sym e)
          (record { parser = w.parser; empty = w.empty; stopping = w.stopping })
    Step-IsWaiting (read_off at off e) q w =
        subst (IsWaiting cap width) (sym e)
          (record { parser = w.parser; empty = w.empty; stopping = w.stopping })
    Step-IsWaiting (receive d c at run e) q w = absurd q
    Step-IsWaiting (receive_fails at e) q w =
        subst (IsWaiting cap width) (sym e)
          (record { parser = w.parser; empty = w.empty; stopping = w.stopping })
    Step-IsWaiting (parse_on at on e) q w = cc (at, w.parser)
    Step-IsWaiting (parse_off at off e) q w = cc (at, w.parser)
    Step-IsWaiting {s} (parse_returns r c at run e) q w =
        cc (run, parse_sleeps cap width s.client w.empty)
    Step-IsWaiting (stop_calls at e) q w =
        subst (IsWaiting cap width) (sym e)
          (record { parser = w.parser; empty = w.empty; stopping = λ p. cc p })
    Step-IsWaiting (join_read at ended e) q w =
        subst (IsWaiting cap width) (sym e)
          (record { parser = w.parser; empty = w.empty; stopping = λ p. cc p })
    Step-IsWaiting (join_parse at ended e) q w = cc (ended, w.parser)

    -- While the parsing thread sleeps on an empty network queue, `rtp_stop` returns in no run without a
    -- further datagram, whether it has been called before the run or is called in it: it resets the flags,
    -- and its `pthread_join` waits for a thread that stays asleep.
    pub stop_waits : {s t : Threads} → IsWaiting cap width s → SilentRun s t → IsWaiting cap width t
    stop_waits w rest = w
    stop_waits w (silent run m q) = Step-IsWaiting m q (stop_waits w run)
