-- ===== src/Protocol/Sdp/Enough.antt =====
-- `parse_sdp` always returns: its fuel is enough, and the only fault is a media name too long.
use canok_rtsp_client.Base.{
  ℕ, zero, suc, ◌<◌, ◌≤◌, ◌≡◌, ◌≢◌, refl, sym, ap, subst, ◌&&◌, ◌∙◌, Bool, true, false, not,
  Bool-cases, Option-cases, inl, inr, Option, none, some, Bytes, [], ◌∷◌, arith, length,
}
use canok_rtsp_client.Macros.{ret_sucess}
use canok_rtsp_client.Text.{span, bind-some}
use canok_rtsp_client.Protocol.{MediaSession}
use canok_rtsp_client.Protocol.Sdp.{
  is_newline, null_at_end, next_sdp_line, is_sdp_line, is_media_line, catch_video_medin_session,
  take_line, Walk, bad_line, at, skip_lines, video_lines, after_media, video_section, media_line,
  media_lines, after_skip, parse_sdp, Loop, return_false,
}

-- Where a line starts, the text is no media line with a name of 64 bytes or more.
abbrev ShortAt : Bool → Bytes → Type 0
ShortAt true s = catch_video_medin_session s ≢ none
ShortAt false s = Unit

-- No line is a media line with a name of 64 bytes or more. The test says whether the text starts a line.
abbrev pub ShortLines : Bool → Bytes → Type 0
ShortLines start [] = Unit
ShortLines start (c ∷ s) = ShortAt start (c ∷ s) × ShortLines (is_newline c) s

-- The same, by evaluation.
short_at : Bool → Option Bool → Bool
short_at true none = false
short_at true (some b) = true
short_at false o = true

short_at_lem :
    (start : Bool) (s : Bytes)
    → short_at start (catch_video_medin_session s) ≡ true
    → ShortAt start s
unfolding short_at
short_at_lem false s h = tt
short_at_lem true s h = λ e. cc (ap (short_at true) (sym e), h)

unfoldable pub short_lines : Bool → Bytes → Bool
unfolding catch_video_medin_session short_at is_newline
short_lines start [] = true
short_lines start (c ∷ s) =
    short_at start (catch_video_medin_session (c ∷ s)) && short_lines (is_newline c) s

pub short_lines-ShortLines :
    (start : Bool) (s : Bytes) → short_lines start s ≡ true → ShortLines start s
unfolding short_lines
short_lines-ShortLines start [] h = tt
short_lines-ShortLines start (c ∷ s) h =
    elim (Bool-cases (short_at start (catch_video_medin_session (c ∷ s)))) [
      | inl here ↦ (
        short_at_lem start (c ∷ s) here,
        short_lines-ShortLines (is_newline c) s
            (ap (λ b. b && short_lines (is_newline c) s) (sym here) ∙ h),
      )
      | inr long ↦ cc (ap (λ b. b && short_lines (is_newline c) s) long, h)
    ]

-- A rest of the text that fuel `n` is enough for.
abbrev Fits : ℕ → Option Bytes → Type 0
Fits n none = Unit
Fits n (some s) = (length s < n) × ShortLines true s

abbrev FitsWalk : ℕ → Walk → Type 0
FitsWalk n bad_line = Unit
FitsWalk n (at o) = Fits n o

Fits-suc : (n : ℕ) (o : Option Bytes) → Fits n o → Fits (suc n) o
Fits-suc n none h = tt
Fits-suc n (some s) h = (omega (arith, h.0), h.1)

FitsWalk-suc : (n : ℕ) (w : Walk) → FitsWalk n w → FitsWalk (suc n) w
FitsWalk-suc n bad_line h = tt
FitsWalk-suc n (at o) h = Fits-suc n o h

-- The ends of a line are skipped.
newlines-ShortLines :
    (s : Bytes)
    → ShortLines true s
    → (length (span is_newline s).1 ≤ length s) × ShortLines true (span is_newline s).1
unfolding span
newlines-ShortLines [] h = (omega arith, tt)
newlines-ShortLines (c ∷ s) h = elim (Bool-cases (is_newline c)) [
  | inl passes ↦
      let r = newlines-ShortLines s (subst (λ b. ShortLines b s) passes h.1) in
      rw passes (omega (arith, r.0), r.1)
  | inr fails ↦ rw fails (omega arith, h)
]

null_at_end-Fits : (n : ℕ) (s : Bytes) → length s < n → ShortLines true s → Fits n (null_at_end s)
unfolding null_at_end
null_at_end-Fits n [] lt h = tt
null_at_end-Fits n (c ∷ s) lt h = (lt, h)

span_stays : (test : ℕ → Bool) (c : ℕ) (s : Bytes) → test c ≡ false → (span test (c ∷ s)).1 ≡ c ∷ s
unfolding span
span_stays test c s fails = rw fails

span_moves :
    (test : ℕ → Bool) (c : ℕ) (s : Bytes) → test c ≡ true → (span test (c ∷ s)).1 ≡ (span test s).1
unfolding span
span_moves test c s passes = rw passes

-- The next line starts further on.
next_sdp_line-Fits :
    (n : ℕ) (start : Bool) (s : Bytes)
    → length s < suc n
    → ShortLines start s
    → Fits n (next_sdp_line s)
unfolding next_sdp_line
next_sdp_line-Fits n start [] lt h = tt
next_sdp_line-Fits n start (c ∷ s) lt h = elim (Bool-cases (is_newline c)) [
  | inl passes ↦
      let ends = newlines-ShortLines s (subst (λ b. ShortLines b s) passes h.1) in
      subst (λ line. Fits n (null_at_end line))
        (sym (
          ap (λ line. (span is_newline line).1)
            (span_stays (λ c. not (is_newline c)) c s (rw passes))
          ∙ span_moves is_newline c s passes))
        (null_at_end-Fits n _ (omega (arith, ends.0)) ends.1)
  | inr fails ↦
      subst (λ line. Fits n (null_at_end (span is_newline line).1))
        (sym (span_moves (λ c. not (is_newline c)) c s (rw fails)))
        (next_sdp_line-Fits n (is_newline c) s (omega arith) h.1)
]

skip_lines_lem :
    (n : ℕ) (o : Option Bytes) → Fits n o → (w : Walk) × (skip_lines n o ≡ some w) × FitsWalk n w
unfolding skip_lines
skip_lines_lem n none h = (at none, refl, tt)
skip_lines_lem zero (some s) h = absurd (omega (arith, h.0))
skip_lines_lem (suc n) (some []) h = (bad_line, refl, tt)
skip_lines_lem (suc n) (some (c ∷ s)) h =
    let (w, run, fits) =
      skip_lines_lem n (next_sdp_line (c ∷ s)) (next_sdp_line-Fits n true (c ∷ s) h.0 h.1) in
    elim (Bool-cases (is_sdp_line (c ∷ s))) [
      | inr bad ↦ (bad_line, rw bad, tt)
      | inl good ↦ elim (Bool-cases (is_media_line (c ∷ s))) [
        | inl media ↦ (at (some (c ∷ s)), rw (good, media), h)
        | inr other ↦ (w, rw (good, other) run, FitsWalk-suc n w fits)
      ]
    ]

video_lines_lem :
    (n : ℕ) (o : Option Bytes) (m : MediaSession)
    → Fits n o
    → (w : Walk) × (m' : MediaSession) × (video_lines n o m ≡ some (w, m')) × FitsWalk n w
unfolding video_lines
video_lines_lem n none m h = (at none, m, refl, tt)
video_lines_lem zero (some s) m h = absurd (omega (arith, h.0))
video_lines_lem (suc n) (some []) m h = (bad_line, m, refl, tt)
video_lines_lem (suc n) (some (c ∷ s)) m h =
    let next = next_sdp_line-Fits n true (c ∷ s) h.0 h.1 in
    let (w, m', run, fits) = video_lines_lem n (next_sdp_line (c ∷ s)) (take_line (c ∷ s) m) next in
    elim (Bool-cases (is_sdp_line (c ∷ s))) [
      | inr bad ↦ (bad_line, m, rw bad, tt)
      | inl good ↦ elim (Bool-cases (is_media_line (c ∷ s))) [
        | inl media ↦ (
          at (next_sdp_line (c ∷ s)),
          m,
          rw (good, media),
          Fits-suc n (next_sdp_line (c ∷ s)) next,
        )
        | inr other ↦ (w, m', rw (good, other) run, FitsWalk-suc n w fits)
      ]
    ]

-- A loop that returns 0 on all texts that fuel `n` is enough for.
abbrev Returns : ℕ → Loop → Type 0
Returns n loop =
    (o : Option Bytes) (m : MediaSession)
    → Fits n o
    → (m' : MediaSession) × (loop o m ≡ some (ret_sucess, m'))

after_media_lem :
    (n : ℕ) (again : Loop)
    → Returns n again
    → (w : Walk) (m : MediaSession) → FitsWalk n w
    → (m' : MediaSession) × (after_media again (w, m) ≡ some (ret_sucess, m'))
unfolding after_media return_false
after_media_lem n again h bad_line m fits = (m, refl)
after_media_lem n again h (at o) m fits = h o m fits

media_line_lem :
    (n : ℕ) (again : Loop)
    → Returns n again
    → (s : Bytes) (m : MediaSession) → Fits n (next_sdp_line s)
    → catch_video_medin_session s ≢ none
    → (m' : MediaSession) × (media_line again n s m ≡ some (ret_sucess, m'))
unfolding media_line
media_line_lem n again h s m fits short =
    let (w, m1, run, fits1) = video_lines_lem n (next_sdp_line s) m fits in
    let (m2, run2) = after_media_lem n again h w m1 fits1 in
    let (m3, run3) = h (next_sdp_line s) m fits in
    elim (Bool-cases (is_media_line s)) [
      | inr other ↦ (m3, rw other run3)
      | inl media ↦ elim (Option-cases (catch_video_medin_session s)) [
        | inl e ↦ absurd (short e)
        | inr (true, e) ↦ (
          m2,
          rw media (
              bind-some (catch_video_medin_session s) (video_section again n s m) e
              ∙ bind-some (video_lines n (next_sdp_line s) m) (after_media again) run
              ∙ run2),
        )
        | inr (false, e) ↦ (
          m3,
          rw media (bind-some (catch_video_medin_session s) (video_section again n s m) e ∙ run3),
        )
      ]
    ]

media_lines_lem : (n : ℕ) → Returns n (media_lines n)
unfolding media_lines return_false
media_lines_lem n none m h = (m, refl)
media_lines_lem zero (some s) m h = absurd (omega (arith, h.0))
media_lines_lem (suc n) (some []) m h = (m, refl)
media_lines_lem (suc n) (some (c ∷ s)) m h =
    let (m', run) =
      media_line_lem n (media_lines n) (media_lines_lem n) (c ∷ s) m
        (next_sdp_line-Fits n true (c ∷ s) h.0 h.1) h.1.0 in
    elim (Bool-cases (is_sdp_line (c ∷ s))) [ inr bad ↦ (m, rw bad) | inl good ↦ (m', rw good run) ]

after_skip_lem :
    (n : ℕ) (w : Walk) (m : MediaSession)
    → FitsWalk n w
    → (m' : MediaSession) × (after_skip n m w ≡ some (ret_sucess, m'))
unfolding after_skip return_false
after_skip_lem n bad_line m h = (m, refl)
after_skip_lem n (at o) m h = media_lines_lem n o m h

-- `parseSDP` returns, with 0 whether a line is bad or not, on every text in which no line is a media line
-- with a name of 64 bytes or more.
pub parse_sdp-returns :
    (s : Bytes) (m : MediaSession)
    → ShortLines true s
    → (m' : MediaSession) × (parse_sdp s m ≡ some (ret_sucess, m'))
unfolding parse_sdp
parse_sdp-returns s m short =
    let (w, run, fits) = skip_lines_lem (suc (length s)) (some s) (omega arith, short) in
    let (m', run') = after_skip_lem (suc (length s)) w m fits in
    (
      m',
      bind-some (skip_lines (suc (length s)) (some s)) (after_skip (suc (length s)) m) run ∙ run',
    )
