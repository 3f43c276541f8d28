-- ===== src/Base/Returns.antt =====
-- What holds when a call returns or sleeps.
use mathlib.Core.Path.{◌≡◌, refl, subst}
use canok_rtsp_client.Base.Outcome.{Outcome, done, waits, fault, M, ◌>>=◌, zoom}

module _ {S A : Type 0} where
  -- `P` holds of the result and the state after, if the call returns.
  abbrev pub Returns : (A → S → Type 0) → Outcome S A → Type 0
  Returns P (done a t) = P a t
  Returns P (waits t) = Unit
  Returns P fault = Unit

  -- Whether the call returns or sleeps, `R` holds between the states before and after.
  abbrev pub Leaves : (S → S → Type 0) → S → Outcome S A → Type 0
  Leaves R s (done a t) = R s t
  Leaves R s (waits t) = R s t
  Leaves R s fault = Unit

  pub Returns-weaken :
      (P Q : A → S → Type 0) (o : Outcome S A)
      → ((a : A) (t : S) → P a t → Q a t)
      → Returns P o
      → Returns Q o
  Returns-weaken P Q (done a t) weaker h = weaker a t h
  Returns-weaken P Q (waits t) weaker h = tt
  Returns-weaken P Q fault weaker h = tt

module _ {S A B : Type 0} where
  pub Returns-bind :
      (P : A → S → Type 0) (Q : B → S → Type 0) (m : M S A) (f : A → M S B) (s : S)
      → Returns P (m s)
      → ((a : A) (t : S) → P a t → Returns Q (f a t))
      → Returns Q ((m >>= f) s)
  Returns-bind P Q m f s h next = by_outcome (m s) h
    where
      by_outcome :
          (o : Outcome S A)
          → Returns P o
          → Returns Q (elim o [ done a t ↦ f a t | waits t ↦ waits t | fault ↦ fault ])
      by_outcome (done a t) h = next a t h
      by_outcome (waits t) h = tt
      by_outcome fault h = tt

-- A call that leaves `R` whatever state it starts in.
abbrev pub Runs : {S A : Type 0} → (S → S → Type 0) → M S A → Type 0
Runs R m = (s : _) → Leaves R s (m s)

module _ {S : Type 0} (R : S → S → Type 0) (trans : (a b c : S) → R a b → R b c → R a c) where
  pub Runs-bind :
      {A B : Type 0} (m : M S A) (f : A → M S B)
      → Runs R m
      → ((a : A) → Runs R (f a))
      → Runs R (m >>= f)
  Runs-bind {A} {B} m f h next s = by_outcome (m s) (h s)
    where
      after : (t : S) → R s t → (o : Outcome S B) → Leaves R t o → Leaves R s o
      after t p (done b u) q = trans s t u p q
      after t p (waits u) q = trans s t u p q
      after t p fault q = tt

      by_outcome :
          (o : Outcome S A)
          → Leaves R s o
          → Leaves R s (elim o [ done a t ↦ f a t | waits t ↦ waits t | fault ↦ fault ])
      by_outcome (done a t) p = after t p (f a t) (next a t)
      by_outcome (waits t) p = p
      by_outcome fault p = tt

-- A call on a part, where the relation holds of a change of that part.
pub Runs-zoom :
    {S T A : Type 0} (R : S → S → Type 0) (Q : T → T → Type 0) (part : S → T) (put : T → S → S)
    (m : M T A)
    → ((s : S) (t : T) → Q (part s) t → R s (put t s))
    → Runs Q m
    → Runs R (zoom part put m)
Runs-zoom {S} {T} {A} R Q part put m lift h s = by_outcome (m (part s)) (h (part s))
  where
    by_outcome :
        (o : Outcome T A)
        → Leaves Q (part s) o
        → Leaves R s
            (elim o [ done a t ↦ done a (put t s) | waits t ↦ waits (put t s) | fault ↦ fault ])
    by_outcome (done a t) p = lift s t p
    by_outcome (waits t) p = lift s t p
    by_outcome fault p = tt

-- The same of the result.
pub Returns-zoom :
    {S T A : Type 0} (P : A → S → Type 0) (Q : A → T → Type 0) (part : S → T) (put : T → S → S)
    (m : M T A) (s : S)
    → ((a : A) (t : T) → Q a t → P a (put t s))
    → Returns Q (m (part s))
    → Returns P (zoom part put m s)
Returns-zoom {S} {T} {A} P Q part put m s lift h = by_outcome (m (part s)) h
  where
    by_outcome :
        (o : Outcome T A)
        → Returns Q o
        → Returns P
            (elim o [ done a t ↦ done a (put t s) | waits t ↦ waits (put t s) | fault ↦ fault ])
    by_outcome (done a t) q = lift a t q
    by_outcome (waits t) q = tt
    by_outcome fault q = tt

-- A statement about the outcome of a call gives a postcondition.
pub Returns-of :
    {S A : Type 0} (P : A → S → Type 0) (o : Outcome S A)
    → ((a : A) (t : S) → o ≡ done a t → P a t)
    → Returns P o
Returns-of P (done a t) h = h a t refl
Returns-of P (waits t) h = tt
Returns-of P fault h = tt

pub Returns-done :
    {S A : Type 0} (P : A → S → Type 0) (o : Outcome S A) (a : A) (t : S)
    → Returns P o
    → o ≡ done a t
    → P a t
Returns-done P o a t h e = subst (Returns P) e h
