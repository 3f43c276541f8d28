-- ===== src/Protocol/Room.antt =====
-- `mSendLen` of my_rtsp_client/cRTSPprotocol.h is set once: no request changes it.
use canok_rtsp_client.Base.{
  ℕ, ◌+◌, ◌≡◌, refl, ◌∙◌, ltb, if◌then◌else◌, Bool, true, false, Option, none, some, Bytes, List,
  [], ◌∷◌, length, set,
}
use canok_rtsp_client.Base.Int.{pos}
use canok_rtsp_client.Base.Memory.{memcpy}
use canok_rtsp_client.Base.Outcome.{M, done, ◌>>=◌, modify, or_fault}
use canok_rtsp_client.Base.Returns.{Leaves, Runs, Runs-bind}
use canok_rtsp_client.Macros.{ret_err}
use canok_rtsp_client.Protocol.{SendBuffer, begain_cmd, write_byte, add_line, add_line_cmd, end_cmd}
use canok_rtsp_client.Protocol.Build.{add_lines, build}

abbrev pub SameRoom : SendBuffer → SendBuffer → Type 0
SameRoom s t = t.send_len ≡ s.send_len

trans : (a b c : SendBuffer) → SameRoom a b → SameRoom b c → SameRoom a c
trans a b c p q = q ∙ p

then-Runs :
    {A B : Type 0} (m : M SendBuffer A) (f : A → M SendBuffer B)
    → Runs SameRoom m
    → ((a : A) → Runs SameRoom (f a))
    → Runs SameRoom (m >>= f)
then-Runs = Runs-bind SameRoom trans

or_fault-SameRoom : {A : Type 0} (o : Option A) → Runs SameRoom (or_fault o)
or_fault-SameRoom none s = tt
or_fault-SameRoom (some a) s = refl

write_byte-SameRoom : (i b : ℕ) → Runs SameRoom (write_byte i b)
unfolding write_byte
write_byte-SameRoom i b s =
    let o = if ltb i (length s.send_buf) then some (set s.send_buf i b) else none in
    then-Runs (or_fault o) (λ bytes. modify (λ s. record s { send_buf = bytes }))
      (or_fault-SameRoom o) (λ bytes t. refl) s

add_line-SameRoom : (buf : Bytes) (n at : ℕ) → Runs SameRoom (add_line buf n at)
unfolding add_line
add_line-SameRoom buf n at s =
    then-Runs (or_fault (memcpy s.send_buf at buf (pos n))) _
      (or_fault-SameRoom (memcpy s.send_buf at buf (pos n)))
      (λ bytes t.
        then-Runs (write_byte (at + n) b'\r') _ (write_byte-SameRoom (at + n) b'\r')
          (λ _.
            then-Runs (write_byte (at + n + 1) b'\n') _ (write_byte-SameRoom (at + n + 1) b'\n')
              (λ _ u. refl))
          (record t { send_buf = bytes }))
      s

add_line_cmd-SameRoom : (buf : Bytes) (n : ℕ) → Runs SameRoom (add_line_cmd buf n)
unfolding add_line_cmd
add_line_cmd-SameRoom buf n s = by_room (ltb s.send_len (s.send_offset + n + 2))
  where
    by_room :
        (full : Bool)
        → Leaves SameRoom s (if full then done ret_err s else add_line buf n s.send_offset s)
    by_room true = refl
    by_room false = add_line-SameRoom buf n s.send_offset s

add_lines-SameRoom : (ls : List Bytes) → Runs SameRoom (add_lines ls)
unfolding add_lines
add_lines-SameRoom [] s = refl
add_lines-SameRoom (l ∷ ls) s =
    then-Runs (add_line_cmd l (length l)) (λ _. add_lines ls) (add_line_cmd-SameRoom l (length l))
      (λ _. add_lines-SameRoom ls) s

end_cmd-SameRoom : Runs SameRoom end_cmd
unfolding end_cmd
end_cmd-SameRoom s =
    then-Runs (write_byte s.send_offset b'\r') _ (write_byte-SameRoom s.send_offset b'\r')
      (λ _.
        then-Runs (write_byte (s.send_offset + 1) b'\n') _
          (write_byte-SameRoom (s.send_offset + 1) b'\n') (λ _ u. refl))
      s

pub build-SameRoom : (ls : List Bytes) → Runs SameRoom (build ls)
unfolding build begain_cmd
build-SameRoom ls s =
    then-Runs (add_lines ls) (λ _. end_cmd) (add_lines-SameRoom ls) (λ _. end_cmd-SameRoom) _
