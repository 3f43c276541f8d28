-- ===== src/Protocol/Transport/Fields.antt =====
-- The loop of `parse_transport_params` takes the fields between the ';' one after another.
use canok_rtsp_client.Base.{
  ℕ, zero, suc, ◌==◌, ◌<◌, ◌≤◌, ◌≡◌, refl, sym, ap, ◌∙◌, not, Bool, true, false, some, Bytes, List,
  [], ◌∷◌, ◌++◌, arith, length, length-append, append-nil,
}
use canok_rtsp_client.Text.{span, some_bytes, scan_until, bind-some}
use canok_rtsp_client.Text.Laws.{All, Stops, span-append}
use canok_rtsp_client.Protocol.Transport.{
  Transport, no_fields, take_field, more_fields, taken, take_fields, conclude,
  parse_transport_params,
}

-- Fields joined by ';'.
abbrev pub join : List Bytes → Bytes
join [] = []
join (f ∷ []) = f
join (f ∷ g ∷ fs) = f ++ (b';' ∷ join (g ∷ fs))

abbrev pub take_each : List Bytes → Transport → Transport
take_each [] t = t
take_each (f ∷ fs) t = take_each fs (take_field f t)

-- A field: at least one byte, and no ';'.
abbrev pub IsField : Bytes → Type 0
IsField f = (0 < length f) × All (λ c. not (c == b';')) f

abbrev pub AreFields : List Bytes → Type 0
AreFields [] = Unit
AreFields (f ∷ fs) = IsField f × AreFields fs

pub scan_until-field :
    (f rest : Bytes)
    → IsField f
    → Stops (λ c. not (c == b';')) rest
    → scan_until b';' (f ++ rest) ≡ some (f, rest)
unfolding scan_until
scan_until-field [] rest h stop = absurd (omega (arith, h.0))
scan_until-field (c ∷ f) rest h stop =
    ap some_bytes (span-append (λ c. not (c == b';')) (c ∷ f) rest h.1 stop)

not-true : (b : Bool) → not b ≡ true → b ≡ false
not-true true h = cc
not-true false h = refl

-- Behind a ';' the next field begins.
skip_semicolon :
    (g : Bytes) (fs : List Bytes)
    → IsField g
    → (c : ℕ) × (s : Bytes) × (join (g ∷ fs) ≡ c ∷ s)
      × ((span (λ c. c == b';') (b';' ∷ join (g ∷ fs))).1 ≡ c ∷ s)
unfolding span
skip_semicolon [] fs h = absurd (omega (arith, h.0))
skip_semicolon (c ∷ g) [] h = (c, g, refl, rw (not-true (c == b';') h.1.0))
skip_semicolon (c ∷ g) (f ∷ fs) h =
    (c, g ++ (b';' ∷ join (f ∷ fs)), refl, rw (not-true (c == b';') h.1.0))

take_fields-join :
    (n : ℕ) (fs : List Bytes) (t : Transport)
    → AreFields fs
    → length fs ≤ suc n
    → take_fields (suc n) (join fs) t ≡ some (take_each fs t)
unfolding take_fields
take_fields-join n [] t h enough = refl
take_fields-join n (f ∷ []) t h enough =
    ap (taken (take_fields n) t)
      (ap (scan_until b';') (sym (append-nil f)) ∙ scan_until-field f [] h.0 tt)
take_fields-join zero (f ∷ g ∷ fs) t h enough = absurd (omega arith)
take_fields-join (suc n) (f ∷ g ∷ fs) t h enough =
    let (c, s, head, skip) = skip_semicolon g fs h.1.0 in
    ap (taken (take_fields (suc n)) t) (scan_until-field f (b';' ∷ join (g ∷ fs)) h.0 refl)
    ∙ ap (λ x. more_fields (take_fields (suc n)) x (take_field f t)) skip
    ∙ ap (λ x. take_fields (suc n) x (take_field f t)) (sym head)
    ∙ take_fields-join n (g ∷ fs) (take_field f t) h.1 (omega arith)

length-join : (fs : List Bytes) → AreFields fs → length fs ≤ suc (length (join fs))
length-join [] h = omega arith
length-join (f ∷ []) h = omega arith
length-join (f ∷ g ∷ fs) h =
    omega (arith, h.0.0, length-join (g ∷ fs) h.1, length-append f (b';' ∷ join (g ∷ fs)))

-- On fields joined by ';', `parseTransportParams` takes each field once, in order, and concludes from
-- what it found; its loop does not run out of fuel.
pub parse_transport_params-join :
    (fs : List Bytes)
    → AreFields fs
    → parse_transport_params (some (join fs)) ≡ some (conclude (take_each fs no_fields))
unfolding parse_transport_params
parse_transport_params-join fs h =
    bind-some (take_fields (suc (length (join fs))) (join fs) no_fields) (λ t. some (conclude t))
      (take_fields-join (length (join fs)) fs no_fields h (length-join fs h))
