-- ===== src/Protocol/Buffer.antt =====
-- Requests put together by `begain_cmd`, `add_line_cmd` and `end_cmd`.
use canok_rtsp_client.Base.{
  ℕ, suc, ◌+◌, ◌<◌, ◌≤◌, ◌≡◌, refl, sym, ap, ap₂, ◌∙◌, Bytes, List, [], ◌∷◌, ◌++◌, arith, length,
  take, drop, set, some, length-append, take-append, length-drop, append_assoc, lt→ltb, le→ltb,
  length-take,
}
use canok_rtsp_client.Base.Int.{ℤ, pos}
use canok_rtsp_client.Base.Memory.{memcpy, memcpy_in_bounds}
use canok_rtsp_client.Base.Outcome.{M, done, ◌>>◌, or_fault, pure, bind_done, modify}
use canok_rtsp_client.Macros.{ret_sucess, ret_err}
use canok_rtsp_client.Protocol.{SendBuffer, write_byte, add_line_cmd}

abbrev pub crlf : Bytes
crlf = b'\r' ∷ b'\n' ∷ []

-- The request with these lines.
abbrev pub message : List Bytes → Bytes
message [] = crlf
message (l ∷ ls) = l ++ (crlf ++ message ls)

-- The text written so far, and the free bytes behind it.
pub record Holds (text : Bytes) (free : Bytes) (s : SendBuffer) : Type 0 where
  pub bytes : s.send_buf ≡ text ++ free
  pub offset : s.send_offset ≡ length text
  pub size : s.send_len ≡ length text + length free

drop-append_more : (xs ys : Bytes) (n : ℕ) → drop (length xs + n) (xs ++ ys) ≡ drop n ys
drop-append_more [] ys n = ap (λ k. drop k ys) (omega arith)
drop-append_more (x ∷ xs) ys n = ap (λ k. drop k (x ∷ (xs ++ ys))) step ∙ drop-append_more xs ys n
  where
    step : suc (length xs) + n ≡ suc (length xs + n)
    step = omega arith

set-append : (xs ys : Bytes) (y v : ℕ) → set (xs ++ (y ∷ ys)) (length xs) v ≡ xs ++ (v ∷ ys)
set-append [] ys y v = refl
set-append (x ∷ xs) ys y v = ap (◌∷◌ x) (set-append xs ys y v)

-- A byte written just behind the text.
pub write_byte_next :
    (text : Bytes) (y : ℕ) (free : Bytes) (i v : ℕ) (s : SendBuffer)
    → s.send_buf ≡ text ++ (y ∷ free)
    → i ≡ length text
    → write_byte i v s ≡ done tt (record s { send_buf = (text ++ (v ∷ [])) ++ free })
unfolding write_byte
write_byte_next text y free i v s e p = rw (
  e,
  p,
  lt→ltb (length text) (length (text ++ (y ∷ free))) inside,
  set-append text free y v,
  sym (append_assoc text (v ∷ []) free),
)
  where
    inside : length text < length (text ++ (y ∷ free))
    inside = omega (arith, length-append text (y ∷ free))

two_of : (xs : Bytes) → 2 ≤ length xs → (a : ℕ) × (b : ℕ) × (rest : Bytes) × (xs ≡ a ∷ b ∷ rest)
two_of [] h = absurd (omega arith)
two_of (a ∷ []) h = absurd (omega arith)
two_of (a ∷ b ∷ rest) h = (a, b, rest, refl)

-- A line end written just behind the text, with what is done with it.
pub write_crlf :
    (text free : Bytes) (i : ℕ) (s : SendBuffer)
    → s.send_buf ≡ text ++ free
    → i ≡ length text
    → 2 ≤ length free
    → (rest : Bytes) × ((k : M SendBuffer ℤ)
        → (write_byte i b'\r' >> (write_byte (i + 1) b'\n' >> k)) s
          ≡ k (record s { send_buf = (text ++ crlf) ++ rest }))
      × (length free ≡ 2 + length rest)
write_crlf text free i s e p room =
    let (a, b, rest, split) = two_of free room in
    (
      rest,
      (λ k.
          let one = record s { send_buf = (text ++ (b'\r' ∷ [])) ++ (b ∷ rest) } in
          bind_done (write_byte i b'\r') (λ _. write_byte (i + 1) b'\n' >> k)
            (write_byte_next text a (b ∷ rest) i b'\r' s (e ∙ ap (λ x. text ++ x) split) p)
          ∙ bind_done (write_byte (i + 1) b'\n') (λ _. k)
              (write_byte_next (text ++ (b'\r' ∷ [])) b rest (i + 1) b'\n' one refl
                (omega (arith, p, length-append text (b'\r' ∷ []))))
          ∙ ap (λ x. k (record s { send_buf = x ++ rest }))
              (append_assoc text (b'\r' ∷ []) (b'\n' ∷ []))),
      omega (arith, ap length split),
    )

memcpy-append :
    (text free src : Bytes) (at n : ℕ)
    → at ≡ length text
    → n ≤ length src
    → n ≤ length free
    → memcpy (text ++ free) at src (pos n) ≡ some ((text ++ take n src) ++ drop n free)
memcpy-append text free src at n p there room =
    ap (λ i. memcpy (text ++ free) i src (pos n)) p
    ∙ memcpy_in_bounds (text ++ free) (length text) src n (omega (arith, length-append text free))
        there
    ∙ ap₂ (λ x y. some (x ++ (take n src ++ y))) (take-append text free (length text) refl)
        (drop-append_more text free n)
    ∙ ap some (sym (append_assoc text (take n src) (drop n free)))

-- A line that fits is written behind the text, with its line end.
pub add_line_cmd_lem :
    (text free src : Bytes) (n : ℕ) (s : SendBuffer)
    → Holds text free s
    → n ≤ length src
    → n + 2 ≤ length free
    → (rest : Bytes) × (t : SendBuffer) × (add_line_cmd src n s ≡ done ret_sucess t)
      × Holds (text ++ (take n src ++ crlf)) rest t
      × (length free ≡ n + 2 + length rest)
unfolding add_line_cmd
add_line_cmd_lem text free src n s h there room =
    let (rest, run, size) =
      write_crlf (text ++ take n src) (drop n free) (s.send_offset + n) copied refl
        (omega (arith, length-append text (take n src), length-take n src, h.offset))
        (omega (arith, length-drop n free)) in
    (
      rest,
      record copied {
        send_buf = ((text ++ take n src) ++ crlf) ++ rest;
        send_offset = s.send_offset + (n + 2);
      },
      rw (le→ltb s.send_len (s.send_offset + n + 2) (omega (arith, h.size, h.offset))) (
          bind_done (or_fault (memcpy s.send_buf s.send_offset src (pos n))) then_end
            (ap (λ o. or_fault {S = SendBuffer} o s) there_copied)
          ∙ run (
              modify (λ t. record t { send_offset = s.send_offset + (n + 2) }) >> pure ret_sucess)),
      record {
        bytes = ap (λ x. x ++ rest) (append_assoc text (take n src) crlf);
        offset = omega (
          arith,
          length-append text (take n src ++ crlf),
          length-append (take n src) crlf,
          length-take n src,
          h.offset,
        );
        size = omega (
          arith,
          length-append text (take n src ++ crlf),
          length-append (take n src) crlf,
          length-take n src,
          length-drop n free,
          size,
          h.size,
        );
      },
      omega (arith, length-drop n free, size),
    )
  where
    copied : SendBuffer
    copied = record s { send_buf = (text ++ take n src) ++ drop n free }

    there_copied :
        memcpy s.send_buf s.send_offset src (pos n) ≡ some ((text ++ take n src) ++ drop n free)
    there_copied =
        ap (λ b. memcpy b s.send_offset src (pos n)) h.bytes
        ∙ memcpy-append text free src s.send_offset n h.offset there (omega arith)

    then_end : Bytes → M SendBuffer ℤ
    then_end bytes =
        modify (λ t. record t { send_buf = bytes })
        >> (write_byte (s.send_offset + n) b'\r'
            >> (write_byte (s.send_offset + n + 1) b'\n'
                >> (modify (λ t. record t { send_offset = s.send_offset + (n + 2) })
                    >> pure ret_sucess)))

-- A line that does not fit is refused, and changes nothing.
pub add_line_cmd_too_long :
    (text free src : Bytes) (n : ℕ) (s : SendBuffer)
    → Holds text free s
    → length free < n + 2
    → add_line_cmd src n s ≡ done ret_err s
unfolding add_line_cmd
add_line_cmd_too_long text free src n s h long =
    rw (lt→ltb s.send_len (s.send_offset + n + 2) (omega (arith, h.size, h.offset)))
