-- ===== src/Base/Outcome.antt =====
-- What a call on a shared object does: it returns, it waits for another thread, or it faults.
use mathlib.Core.Path.{◌≡◌, refl, sym, ◌∙◌}
use mathlib.Core.Option.{Option, none, some}

-- `waits s`: the thread sleeps in state `s`. `fault`: undefined behaviour, such as a write out of
-- bounds.
pub data Outcome (S A : Type 0) : Type 0 where
  done : A → S → Outcome S A
  waits : S → Outcome S A
  fault : Outcome S A

abbrev pub M : Type 0 → Type 0 → Type 0
M S A = S → Outcome S A

module _ {S : Type 0} where
  infixl 5 ◌>>=◌ ◌>>◌
  abbrev pub ◌>>=◌ : {A B : Type 0} → M S A → (A → M S B) → M S B
  ◌>>=◌ m f s = elim (m s) [ done a s' ↦ f a s' | waits s' ↦ waits s' | fault ↦ fault ]

  abbrev pub ◌>>◌ : {B : Type 0} → M S (Unit {0}) → M S B → M S B
  m >> k = m >>= λ _. k

  abbrev pub pure : {A : Type 0} → A → M S A
  pure a s = done a s

  abbrev pub get : M S S
  get s = done s s

  abbrev pub modify : (S → S) → M S (Unit {0})
  modify f s = done tt (f s)

  -- A step that may be undefined behaviour.
  abbrev pub or_fault : {A : Type 0} → Option A → M S A
  or_fault none s = fault
  or_fault (some a) s = done a s

  -- A call that returns hands its result to the rest.
  pub bind_done :
      {A B : Type 0} (m : M S A) (f : A → M S B) {s t : S} {a : A}
      → m s ≡ done a t
      → (m >>= f) s ≡ f a t
  bind_done m f {s} h = rw (h, ◌>>=◌)

  pub bind_waits :
      {A B : Type 0} (m : M S A) (f : A → M S B) {s t : S} → m s ≡ waits t → (m >>= f) s ≡ waits t
  bind_waits m f {s} h = rw (h, ◌>>=◌)

  pub bind_fault :
      {A B : Type 0} (m : M S A) (f : A → M S B) {s : S} → m s ≡ fault → (m >>= f) s ≡ fault
  bind_fault m f {s} h = rw (h, ◌>>=◌)

-- When a chain returns, its first call has returned.
pub bind-done :
    {S A B : Type 0} (m : M S A) (f : A → M S B) (s : S) {t : S} {b : B}
    → (m >>= f) s ≡ done b t
    → (a : A) × (u : S) × (m s ≡ done a u) × (f a u ≡ done b t)
bind-done {S} {A} {B} m f s {t} {b} e = by_outcome (m s) refl e
  where
    by_outcome :
        (o : Outcome S A)
        → m s ≡ o
        → (m >>= f) s ≡ done b t
        → (a : A) × (u : S) × (m s ≡ done a u) × (f a u ≡ done b t)
    by_outcome (done a u) p e = (a, u, p, sym (bind_done m f p) ∙ e)
    by_outcome (waits u) p e = cc (bind_waits m f p, e)
    by_outcome fault p e = cc (bind_fault m f p, e)

-- A call on a part of the state.
abbrev pub zoom : {S T A : Type 0} → (S → T) → (T → S → S) → M T A → M S A
zoom part put m s = elim (m (part s)) [
  | done a t ↦ done a (put t s)
  | waits t ↦ waits (put t s)
  | fault ↦ fault
]

module _ {S T : Type 0} where
  pub zoom_done :
      {A : Type 0} (part : S → T) (put : T → S → S) (m : M T A) {s : S} {a : A} {t : T}
      → m (part s) ≡ done a t
      → zoom part put m s ≡ done a (put t s)
  zoom_done part put m {s} h = rw (h, zoom)

  pub zoom_waits :
      {A : Type 0} (part : S → T) (put : T → S → S) (m : M T A) {s : S} {t : T}
      → m (part s) ≡ waits t
      → zoom part put m s ≡ waits (put t s)
  zoom_waits part put m {s} h = rw (h, zoom)

  pub zoom_fault :
      {A : Type 0} (part : S → T) (put : T → S → S) (m : M T A) {s : S}
      → m (part s) ≡ fault
      → zoom part put m s ≡ fault
  zoom_fault part put m {s} h = rw (h, zoom)
