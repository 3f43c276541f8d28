-- ===== src/Protocol/Build.antt =====
-- Whole requests: `begain_cmd`, some `add_line_cmd`, then `end_cmd`.
use canok_rtsp_client.Base.{
  ℕ, zero, suc, ◌+◌, ◌<◌, ◌≤◌, ◌≡◌, refl, sym, ap, subst, ◌∙◌, Bytes, List, [], ◌∷◌, ◌++◌, arith,
  length, take, replicate, length-append, take-append, take_all, append-nil, append_assoc, le→ltb,
}
use canok_rtsp_client.Base.Int.{ℤ}
use canok_rtsp_client.Base.Outcome.{
  M, done, fault, ◌>>=◌, ◌>>◌, pure, bind_done, bind_fault, modify,
}
use canok_rtsp_client.Macros.{ret_sucess}
use canok_rtsp_client.Protocol.Buffer.{
  crlf, message, Holds, write_byte_next, write_crlf, add_line_cmd_lem,
}
use canok_rtsp_client.Protocol.{SendBuffer, begain_cmd, write_byte, add_line_cmd, end_cmd}

-- The calls between `begain_cmd` and `end_cmd`; the callers do not look at what they return.
unfoldable pub add_lines : List Bytes → M SendBuffer (Unit {0})
add_lines [] = pure tt
add_lines (l ∷ ls) = do _ ← add_line_cmd l (length l); add_lines ls

unfoldable pub build : List Bytes → M SendBuffer ℤ
build ls = do _ ← begain_cmd; add_lines ls; end_cmd

-- The lines without the blank line.
abbrev lines_text : List Bytes → Bytes
lines_text [] = []
lines_text (l ∷ ls) = (l ++ crlf) ++ lines_text ls

message-lines_text : (ls : List Bytes) → lines_text ls ++ crlf ≡ message ls
message-lines_text [] = refl
message-lines_text (l ∷ ls) =
    append_assoc (l ++ crlf) (lines_text ls) crlf
    ∙ append_assoc l crlf (lines_text ls ++ crlf)
    ∙ ap (λ x. l ++ (crlf ++ x)) (message-lines_text ls)

add_lines_lem :
    (ls : List Bytes) (text free : Bytes) (s : SendBuffer)
    → Holds text free s
    → length (lines_text ls) + 2 ≤ length free
    → (rest : Bytes) × (t : SendBuffer) × (add_lines ls s ≡ done tt t)
      × Holds (text ++ lines_text ls) rest t
      × (2 ≤ length rest)
unfolding add_lines
add_lines_lem [] text free s h room =
    (free, s, refl, subst (λ x. Holds x free s) (sym (append-nil text)) h, omega arith)
add_lines_lem (l ∷ ls) text free s h room =
    let sizes : length (lines_text (l ∷ ls)) ≡ length l + 2 + length (lines_text ls) =
      omega (arith, length-append (l ++ crlf) (lines_text ls), length-append l crlf) in
    let (rest, t, run, h', size) =
      add_line_cmd_lem text free l (length l) s h (omega arith) (omega arith) in
    let whole : take (length l) l ≡ l = take_all (length l) l (omega arith) in
    let (rest', u, run', h'', more) =
      add_lines_lem ls (text ++ (l ++ crlf)) rest t
        (subst (λ x. Holds (text ++ (x ++ crlf)) rest t) whole h')
        (omega (arith, sizes, size, room)) in
    (
      rest',
      u,
      bind_done (add_line_cmd l (length l)) (λ _. add_lines ls) run ∙ run',
      subst (λ x. Holds x rest' u) (append_assoc text (l ++ crlf) (lines_text ls)) h'',
      more,
    )

end_cmd_lem :
    (text free : Bytes) (s : SendBuffer)
    → Holds text free s
    → 2 ≤ length free
    → (rest : Bytes) × (t : SendBuffer) × (end_cmd s ≡ done ret_sucess t)
      × (t.send_buf ≡ (text ++ crlf) ++ rest)
      × (t.send_offset ≡ length text + 2)
unfolding end_cmd
end_cmd_lem text free s h room =
    let (rest, run, size) = write_crlf text free s.send_offset s h.bytes h.offset room in
    (
      rest,
      _,
      run (modify (λ s. record s { send_offset = s.send_offset + 2 }) >> pure ret_sucess),
      refl,
      omega (arith, h.offset),
    )

length-replicate : (n : ℕ) → length (replicate {A = ℕ} n 0) ≡ n
length-replicate zero = refl
length-replicate (suc n) = ap suc (length-replicate n)

-- Where the lines fit with their line ends and the blank line, the buffer holds just the request, and
-- its length: each line with CR LF, then CR LF. What the buffer held before does not matter.
pub build-message :
    (ls : List Bytes) (s : SendBuffer)
    → length (message ls) ≤ s.send_len
    → (t : SendBuffer) × (build ls s ≡ done ret_sucess t)
      × (t.send_offset ≡ length (message ls))
      × (take t.send_offset t.send_buf ≡ message ls)
unfolding build begain_cmd
build-message ls s room =
    let sizes : length (message ls) ≡ length (lines_text ls) + 2 =
      omega (arith, ap length (message-lines_text ls), length-append (lines_text ls) crlf) in
    let start = record s { send_buf = replicate s.send_len 0; send_offset = 0 } in
    let (rest, t, run, h, more) =
      add_lines_lem ls [] (replicate s.send_len 0) start
        (record {
          bytes = refl;
          offset = refl;
          size = sym (length-replicate s.send_len) ∙ omega arith;
        })
        (omega (arith, sizes, length-replicate s.send_len)) in
    let (rest', u, run', bytes, offset) = end_cmd_lem (lines_text ls) rest t h more in
    let size : u.send_offset ≡ length (message ls) = omega (arith, offset, sizes) in
    (
      u,
      bind_done (add_lines ls) (λ _. end_cmd) run ∙ run',
      size,
      ap (take u.send_offset) (bytes ∙ ap (λ x. x ++ rest') (message-lines_text ls))
          ∙ take-append (message ls) rest' u.send_offset size,
    )

write_byte_past : (i v : ℕ) (s : SendBuffer) → length s.send_buf ≤ i → write_byte i v s ≡ fault
unfolding write_byte
write_byte_past i v s past = rw (le→ltb i (length s.send_buf) past)

-- What `end_cmd` does after its first write.
abbrev second_write : ℕ → M SendBuffer ℤ
second_write at =
    write_byte (at + 1) b'\n'
    >> (modify (λ s. record s { send_offset = s.send_offset + 2 }) >> pure ret_sucess)

-- `end_cmd` has no check of its own: with less than two bytes free it writes past the end.
pub end_cmd_overflow :
    (text free : Bytes) (s : SendBuffer) → Holds text free s → length free < 2 → end_cmd s ≡ fault
unfolding end_cmd
end_cmd_overflow text [] s h short =
    bind_fault (write_byte s.send_offset b'\r') (λ _. second_write s.send_offset)
      (write_byte_past s.send_offset b'\r' s
        (omega (arith, h.offset, ap length h.bytes, length-append text [])))
end_cmd_overflow text (a ∷ []) s h short =
    let one = record s { send_buf = (text ++ (b'\r' ∷ [])) ++ [] } in
    bind_done (write_byte s.send_offset b'\r') (λ _. second_write s.send_offset)
      (write_byte_next text a [] s.send_offset b'\r' s h.bytes h.offset)
    ∙ bind_fault (write_byte (s.send_offset + 1) b'\n') _ (
        write_byte_past (s.send_offset + 1) b'\n' one (
          omega (
            arith,
            h.offset,
            length-append (text ++ (b'\r' ∷ [])) [],
            length-append text (b'\r' ∷ []),
          )))
end_cmd_overflow text (a ∷ b ∷ free) s h short = absurd (omega arith)
