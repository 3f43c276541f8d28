-- ===== src/Text/Laws.antt =====
-- Laws of the conversions.
use canok_rtsp_client.Base.{ℕ, ◌≡◌, refl, ◌&&◌, Bool, true, false, some, Bytes, [], ◌∷◌, ◌++◌}
use canok_rtsp_client.Text.{codes, span, scan_unsigned, scan_word}

scan_number : scan_unsigned 16 (codes "  6970-6971") ≡ some (6970, codes "-6971")
unfolding scan_unsigned
scan_number = refl

scan_negative : scan_unsigned 16 (codes "-1;") ≡ some (65535, codes ";")
unfolding scan_unsigned
scan_negative = refl

scan_words : scan_word (codes " video 0") ≡ some (codes "video", codes " 0")
unfolding scan_word
scan_words = refl

-- Every byte passes a test.
abbrev pub All : (ℕ → Bool) → Bytes → Type 0
All test [] = Unit
All test (c ∷ s) = (test c ≡ true) × All test s

-- A string does not begin with a byte that passes.
abbrev pub Stops : (ℕ → Bool) → Bytes → Type 0
Stops test [] = Unit
Stops test (c ∷ s) = test c ≡ false

pub span-append :
    (test : ℕ → Bool) (s rest : Bytes)
    → All test s
    → Stops test rest
    → span test (s ++ rest) ≡ (s, rest)
unfolding span
span-append test [] [] all stop = refl
span-append test [] (c ∷ rest) all stop = rw stop
span-append test (c ∷ s) rest (here, all) stop = rw (here, span-append test s rest all stop)

-- The same, by evaluation.
unfoldable pub every : (ℕ → Bool) → Bytes → Bool
every test [] = true
every test (c ∷ s) = test c && every test s

pub every-All : (test : ℕ → Bool) (s : Bytes) → every test s ≡ true → All test s
unfolding every
every-All test [] h = tt
every-All test (c ∷ s) h =
    let (here, rest) = both (test c) (every test s) h in (here, every-All test s rest)
  where
    both : (a b : Bool) → (a && b) ≡ true → (a ≡ true) × (b ≡ true)
    both true b h = (refl, h)
    both false b h = cc h
