-- ===== src/RtspClient/Requests/Good.antt =====
-- The texts of the four requests that open a session in my_rtsp_client/cRTSPClient.cpp, and chains of calls
-- that must return RET_SUCESS.
use canok_rtsp_client.Base.{
  ℕ, ◌≤◌, ◌≡◌, refl, ap, if◌then◌else◌, Bool, true, false, ==_iff, Bytes, List, [], ◌∷◌, length,
}
use canok_rtsp_client.Base.Int.{ℤ, pos, negsuc}
use canok_rtsp_client.Base.Outcome.{M, pure}
use canok_rtsp_client.Base.Returns.{Returns, Returns-bind}
use canok_rtsp_client.Macros.{ret_err}
use canok_rtsp_client.Text.{codes}
use canok_rtsp_client.Protocol.Buffer.{message}
use canok_rtsp_client.RtspClient.Requests.{
  is_sucess, and_then, request_line, cseq_line, session_line, transport_line,
}

-- `P` holds after a call that succeeds.
abbrev pub Good : {S : Type 0} → (S → Type 0) → ℤ → S → Type 0
Good P r t = is_sucess r ≡ true → P t

pub and_then-Good :
    {S : Type 0} (P Q : S → Type 0) (m next : M S ℤ) (s : S)
    → Returns (Good P) (m s)
    → ((t : S) → P t → Returns (Good Q) (next t))
    → Returns (Good Q) (and_then m next s)
unfolding is_sucess
and_then-Good {S} P Q m next s h step =
    Returns-bind (Good P) (Good Q) m (λ r. if is_sucess r then next else pure ret_err) s h
      (λ r t p. by_result r t p (is_sucess r) refl)
  where
    by_result :
        (r : ℤ) (t : S)
        → Good P r t
        → (ok : Bool) → is_sucess r ≡ ok
        → Returns (Good Q) ((if ok then next else pure ret_err) t)
    by_result r t p true e = step t (p e)
    by_result r t p false e = λ h. cc h

pub Good-err : {S : Type 0} (P : S → Type 0) (t : S) → Good P ret_err t
unfolding is_sucess
Good-err P t h = cc h

pub is_sucess-eq : (r : ℤ) → is_sucess r ≡ true → r ≡ pos 0
unfolding is_sucess
is_sucess-eq (pos n) h = ap pos ((==_iff n 0).0 h)
is_sucess-eq (negsuc n) h = cc h

-- A text that is the request with these lines, if that fits into `room` bytes.
abbrev pub Written : ℕ → List Bytes → Bytes → Type 0
Written room lines text = length (message lines) ≤ room → text ≡ message lines

abbrev pub options_lines : Bytes → ℕ → List Bytes
options_lines url n = request_line (codes "OPTIONS") url ∷ cseq_line n ∷ []

abbrev pub describe_lines : Bytes → ℕ → List Bytes
describe_lines url n = request_line (codes "DESCRIBE") url ∷ cseq_line n ∷ []

abbrev pub setup_lines : Bytes → ℕ → ℤ → List Bytes
setup_lines path n port = request_line (codes "SETUP") path ∷ cseq_line n ∷ transport_line port ∷ []

abbrev pub play_lines : Bytes → ℕ → Bytes → List Bytes
play_lines url n id =
    request_line (codes "PLAY") url ∷ cseq_line n ∷ codes "nRange:npt=0.000-" ∷ session_line id ∷ []
