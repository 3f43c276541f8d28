-- ===== src/Pcap/Records.antt =====
-- A capture file of records, and what `getFrames` of my_rtsp_client/Pcapfile.cpp reads from it.
use Prim.Native.Nat.{bit_or}
use canok_rtsp_client.Base.{
  ℕ, suc, ◌+◌, ◌*◌, ◌/◌, ◌%◌, ◌^◌, ◌<◌, ◌≤◌, ◌≡◌, refl, sym, ap, ap₂, ◌∙◌, leb, ltb, le→leb,
  if◌then◌else◌, false, Bytes, [], ◌∷◌, ◌++◌, arith, length, length-append, take, drop, take-append,
  drop-append, append_assoc, none,
}
use canok_rtsp_client.Base.Int.{ℤ, pos}
use canok_rtsp_client.Base.Bits.{bit_or_shifted}
use canok_rtsp_client.Base.Outcome.{M, done, pure, ◌>>=◌, bind_done, or_fault}
use canok_rtsp_client.Pcap.{
  Pcap, get_little_data, fread, wanted, read_data, is_short, again_or_end, with_data, with_head,
  get_frames,
}

-- A number of four bytes, the lowest first.
abbrev pub le_32 : ℕ → Bytes
le_32 n = (n % 256) ∷ (n / 256 % 256) ∷ (n / 65536 % 256) ∷ (n / 16777216) ∷ []

little_step : (a b : ℕ) → a < 16777216 → b < 256 → bit_or (a * 2 ^ 8 % 2 ^ 64) b ≡ a * 256 + b
little_step a b ha hb = ap (λ (n : ℕ). bit_or n b) small ∙ bit_or_shifted 8 a b hb
  where
    small : a * 2 ^ 8 % 2 ^ 64 ≡ a * 2 ^ 8
    small = omega arith

get_little_data-le_32 :
    (n : ℕ) (rest : Bytes) → n < 4294967296 → get_little_data 4 (le_32 n ++ rest) ≡ n
unfolding get_little_data
get_little_data-le_32 n rest h =
    ap
      (λ (x : ℕ).
        bit_or
          (bit_or (bit_or (x * 2 ^ 8 % 2 ^ 64) (n / 65536 % 256) * 2 ^ 8 % 2 ^ 64) (n / 256 % 256)
            * 2 ^ 8
            % 2 ^ 64)
          (n % 256))
      (little_step 0 (n / 16777216) (omega arith) (omega arith))
    ∙ ap
        (λ (x : ℕ). bit_or (bit_or (x * 2 ^ 8 % 2 ^ 64) (n / 256 % 256) * 2 ^ 8 % 2 ^ 64) (n % 256))
        (little_step (0 * 256 + n / 16777216) (n / 65536 % 256) (omega arith) (omega arith))
    ∙ ap (λ (x : ℕ). bit_or (x * 2 ^ 8 % 2 ^ 64) (n % 256))
        (little_step ((0 * 256 + n / 16777216) * 256 + n / 65536 % 256) (n / 256 % 256)
          (omega arith) (omega arith))
    ∙ little_step (((0 * 256 + n / 16777216) * 256 + n / 65536 % 256) * 256 + n / 256 % 256)
        (n % 256) (omega arith) (omega arith)
    ∙ omega arith

-- A record: the time in eight bytes, the length captured, the length sent in four bytes, the data.
pub record Record : Type 0 where
  pub time : Bytes
  pub sent : Bytes
  pub data_bytes : Bytes

pub record IsRecord (size : ℕ) (r : Record) : Type 0 where
  pub time_size : length r.time ≡ 8
  pub sent_size : length r.sent ≡ 4
  pub fits : length r.data_bytes ≤ size
  pub small : length r.data_bytes < 2147483648

abbrev pub head_bytes : Record → Bytes
head_bytes r = r.time ++ (le_32 (length r.data_bytes) ++ r.sent)

abbrev pub record_bytes : Record → Bytes
record_bytes r = head_bytes r ++ r.data_bytes

-- A read of just the bytes `b`.
fread_lem :
    (p : Pcap) (pre b rest : Bytes) (n : ℕ)
    → p.file ≡ pre ++ (b ++ rest)
    → p.at ≡ length pre
    → n ≡ length b
    → fread n p ≡ done b (record p { at = p.at + n })
unfolding fread
fread_lem p pre b rest n e at size =
    ap (λ x. done x (record p { at = p.at + length x }))
      (ap₂ (λ f i. take n (drop i f)) e at
        ∙ ap (take n) (drop-append pre (b ++ rest) (length pre) refl)
        ∙ take-append b rest n size)
    ∙ ap (λ (k : ℕ). done b (record p { at = p.at + k })) (sym size)

-- The length stands eight bytes into the head.
length_field :
    (r : Record) (size : ℕ)
    → IsRecord size r
    → get_little_data 4 (drop 8 (head_bytes r)) ≡ length r.data_bytes
length_field r size w =
    ap (get_little_data 4)
      (drop-append r.time (le_32 (length r.data_bytes) ++ r.sent) 8 (sym w.time_size))
    ∙ get_little_data-le_32 (length r.data_bytes) r.sent (omega (arith, w.small))

pub length-head_bytes : (r : Record) (size : ℕ) → IsRecord size r → length (head_bytes r) ≡ 16
length-head_bytes r size w =
    length-append r.time (le_32 (length r.data_bytes) ++ r.sent)
    ∙ ap₂ (λ (i j : ℕ). i + j) w.time_size
        (length-append (le_32 (length r.data_bytes)) r.sent ∙ ap (λ (k : ℕ). 4 + k) w.sent_size)

wanted_small : (n : ℕ) → n < 2147483648 → wanted n ≡ n
unfolding wanted
wanted_small n h = ground arith

is_short-length : (b : Bytes) → is_short b (length b) ≡ false
unfolding is_short
is_short-length b = ground arith

read_data_lem :
    (p : Pcap) (pre b rest : Bytes) (size : ℕ)
    → p.file ≡ pre ++ (b ++ rest)
    → p.at ≡ length pre
    → length b ≤ size
    → length b < 2147483648
    → read_data size (length b) p ≡ done b (record p { at = p.at + length b })
unfolding read_data
read_data_lem p pre b rest size e at fits small =
    bind_done (fread (wanted (length b)))
      (λ bytes. if leb (length bytes) size then pure bytes else or_fault none) {s = p}
      (ap (λ k. fread k p) (wanted_small (length b) small)
        ∙ fread_lem p pre b rest (length b) e at refl)
    ∙ ap (λ t. (if t then pure b else or_fault none) (record p { at = p.at + length b }))
        (le→leb (length b) size fits)

with_data_lem :
    (again : M Pcap (ℤ × Bytes)) (b : Bytes) (p : Pcap)
    → with_data again (length b) b p ≡ done (pos (length b), b) p
unfolding with_data
with_data_lem again b p =
    ap (λ t. (if t then again_or_end again else pure (pos (length b), b)) p) (is_short-length b)

with_head_lem :
    (again : M Pcap (ℤ × Bytes)) (p : Pcap) (pre rest : Bytes) (r : Record) (size : ℕ)
    → IsRecord size r
    → p.file ≡ pre ++ (r.data_bytes ++ rest)
    → p.at ≡ length pre
    → with_head again size (head_bytes r) p
      ≡ done
          (pos (length r.data_bytes), r.data_bytes)
          (record p { at = p.at + length r.data_bytes })
unfolding with_head
with_head_lem again p pre rest r size w e at =
    ap (λ t. (if t then again_or_end again else body (get_little_data 4 (drop 8 (head_bytes r)))) p)
      (ap (λ k. ltb k 16) (length-head_bytes r size w))
    ∙ ap (λ k. body k p) (length_field r size w)
    ∙ bind_done (read_data size (length r.data_bytes)) (with_data again (length r.data_bytes))
        {s = p} (read_data_lem p pre r.data_bytes rest size e at w.fits (omega (arith, w.small)))
    ∙ with_data_lem again r.data_bytes (record p { at = p.at + length r.data_bytes })
  where
    body : ℕ → M Pcap (ℤ × Bytes)
    body k = read_data size k >>= with_data again k

-- `getFrames` at the start of a record returns its data, and stands behind it.
pub get_frames-record :
    (p : Pcap) (pre rest : Bytes) (r : Record) (n size : ℕ)
    → IsRecord size r
    → p.file ≡ pre ++ (record_bytes r ++ rest)
    → p.at ≡ length pre
    → get_frames (suc n) size p
      ≡ done
          (pos (length r.data_bytes), r.data_bytes)
          (record p { at = p.at + 16 + length r.data_bytes })
unfolding get_frames
get_frames-record p pre rest r n size w e at =
    bind_done (fread 16) (with_head (get_frames n size) size) {s = p} (
      fread_lem p pre (head_bytes r) (r.data_bytes ++ rest) 16
        (e ∙ ap (λ z. pre ++ z) (append_assoc (head_bytes r) r.data_bytes rest)) at
        (sym (length-head_bytes r size w)))
    ∙ with_head_lem (get_frames n size) (record p { at = p.at + 16 }) (pre ++ head_bytes r) rest r
        size w
        (e
          ∙ ap (λ z. pre ++ z) (append_assoc (head_bytes r) r.data_bytes rest)
          ∙ sym (append_assoc pre (head_bytes r) (r.data_bytes ++ rest)))
        (ap (λ (k : ℕ). k + 16) at
          ∙ ap (λ (k : ℕ). length pre + k) (sym (length-head_bytes r size w))
          ∙ sym (length-append pre (head_bytes r)))
