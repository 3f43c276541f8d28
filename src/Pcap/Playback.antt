-- ===== src/Pcap/Playback.antt =====
-- The packets of a whole capture file, call after call of `getFrames` of my_rtsp_client/Pcapfile.cpp, and
-- the jump back to its first packet.
use canok_rtsp_client.Base.{
  ℕ, zero, suc, ◌+◌, ◌≡◌, refl, sym, ap, ◌∙◌, if◌then◌else◌, Bool, Bytes, List, [], ◌∷◌, ◌++◌, map,
  arith, length, length-append, take, drop, append_assoc, some,
}
use canok_rtsp_client.Base.Int.{ℤ, pos, negsuc}
use canok_rtsp_client.Base.Outcome.{M, done, pure, ◌>>=◌, bind_done}
use canok_rtsp_client.Pcap.{Pcap, init, fread, with_head, again_or_end, get_frames}
use canok_rtsp_client.Pcap.Records.{
  Record, IsRecord, head_bytes, length-head_bytes, record_bytes, get_frames-record,
}

-- The bytes of the records, one after the other.
abbrev pub records_bytes : List Record → Bytes
records_bytes [] = []
records_bytes (r ∷ rs) = record_bytes r ++ records_bytes rs

abbrev pub AreRecords : ℕ → List Record → Type 0
AreRecords size [] = Unit
AreRecords size (r ∷ rs) = IsRecord size r × AreRecords size rs

-- The result of the call that reads `r`.
abbrev pub packet : Record → ℤ × Bytes
packet r = (pos (length r.data_bytes), r.data_bytes)

-- As many calls of `getFrames`, and their results. None of them may jump back.
abbrev pub calls : ℕ → ℕ → M Pcap (List (ℤ × Bytes))
calls zero size = pure []
calls (suc k) size = get_frames 1 size >>= λ x. calls k size >>= λ xs. pure (x ∷ xs)

-- Behind a record.
abbrev behind : Pcap → Record → Pcap
behind p r = record p { at = p.at + 16 + length r.data_bytes }

length-record_bytes :
    (r : Record) (size : ℕ) → IsRecord size r → length (record_bytes r) ≡ 16 + length r.data_bytes
length-record_bytes r size w =
    length-append (head_bytes r) r.data_bytes
    ∙ ap (λ (k : ℕ). k + length r.data_bytes) (length-head_bytes r size w)

calls-records :
    (p : Pcap) (pre : Bytes) (rs : List Record) (size : ℕ)
    → AreRecords size rs
    → p.file ≡ pre ++ records_bytes rs
    → p.at ≡ length pre
    → calls (length rs) size p
      ≡ done (map packet rs) (record p { at = p.at + length (records_bytes rs) })
calls-records p pre [] size w e at = ap (λ (k : ℕ). done [] (record p { at = k })) (omega arith)
calls-records p pre (r ∷ rs) size w e at =
    bind_done (get_frames 1 size) (λ x. calls (length rs) size >>= λ xs. pure (x ∷ xs)) {s = p}
      (get_frames-record p pre (records_bytes rs) r 0 size w.0 e at)
    ∙ bind_done (calls (length rs) size) (λ xs. pure (packet r ∷ xs)) {s = behind p r}
        (calls-records (behind p r) (pre ++ record_bytes r) rs size w.1
          (e ∙ sym (append_assoc pre (record_bytes r) (records_bytes rs)))
          (omega (arith, at, length-append pre (record_bytes r), length-record_bytes r size w.0)))
    ∙ ap (λ (k : ℕ). done (map packet (r ∷ rs)) (record p { at = k }))
        (omega (
          arith,
          length-append (record_bytes r) (records_bytes rs),
          length-record_bytes r size w.0,
        ))

-- The object that `init` leaves on a file that opens.
abbrev pub opened : Bytes → Bool → Pcap
opened file reloop = record { file = file; at = 24; reloop = reloop }

-- On a capture file, which is a header of 24 bytes and then records, each of which says its length and
-- has data that fit the caller's buffer and are below 2 ^ 31 bytes long, `init` returns 0, and the calls
-- of `getFrames` that follow, one for each record, return the data of the records in order, and leave
-- the position at the end of the file.
pub calls-init :
    (header : Bytes) (rs : List Record) (size : ℕ) (reloop : Bool)
    → length header ≡ 24
    → AreRecords size rs
    → (p : Pcap) × (init (some (header ++ records_bytes rs)) reloop ≡ (pos 0, some p))
      × (calls (length rs) size p
          ≡ done (map packet rs) (record p { at = length (header ++ records_bytes rs) }))
unfolding init
calls-init header rs size reloop h w = (
  opened (header ++ records_bytes rs) reloop,
  refl,
  calls-records (opened (header ++ records_bytes rs) reloop) header rs size w refl (sym h)
      ∙ ap
          (λ (k : ℕ).
            done (map packet rs) (record (opened (header ++ records_bytes rs) reloop) { at = k }))
          (omega (arith, h, length-append header (records_bytes rs))),
)

drop_all : (xs : Bytes) → drop (length xs) xs ≡ []
drop_all [] = refl
drop_all (x ∷ xs) = drop_all xs

-- At the end of a capture file, whose first record fits the caller's buffer, a call of `getFrames`
-- returns -1 and changes nothing without the jump back; with it, the call jumps back once and returns
-- the first packet again.
get_frames_end :
    (header : Bytes) (r : Record) (rs : List Record) (size n : ℕ) (p : Pcap)
    → length header ≡ 24
    → IsRecord size r
    → p.file ≡ header ++ records_bytes (r ∷ rs)
    → p.at ≡ length p.file
    → get_frames (suc (suc n)) size p ≡ (
        if p.reloop
        then done (packet r) (record p { at = 40 + length r.data_bytes })
        else done (negsuc 0, []) p)
unfolding get_frames fread with_head again_or_end
get_frames_end header r rs size n p h w e at =
    ap (λ b. with_head (get_frames (suc n) size) size b (record p { at = p.at + length b }))
      (ap (λ k. take 16 (drop k p.file)) at ∙ ap (take 16) (drop_all p.file))
    ∙ ap (λ (k : ℕ). again_or_end (get_frames (suc n) size) (record p { at = k })) (omega arith)
    ∙ ap (λ x. if p.reloop then x else done (negsuc 0, []) p)
        (get_frames-record (record p { at = 24 }) header (records_bytes rs) r n size w e (sym h))
