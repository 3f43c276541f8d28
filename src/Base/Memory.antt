-- ===== src/Base/Memory.antt =====
-- C's memcpy between byte arrays, with its faults.
use Prim.Native.Nat.{ℕ, ◌+◌, ◌≤◌}
use mathlib.Core.Path.{◌≡◌, ap, ◌∙◌}
use mathlib.Core.Bool.{◌&&◌}
use mathlib.Core.List.{◌++◌}
use mathlib.Core.Option.{Option, none, some}
use native.Mathlib.Omega.{arith}
use canok_rtsp_client.Base.Tests.{leb, if◌then◌else◌}
use canok_rtsp_client.Base.Lists.{
  Bytes, length, take, drop, length-append, length-take, length-drop,
}
use canok_rtsp_client.Base.Int.{ℤ, pos, negsuc}

-- `memcpy(dst + off, src, n)`. A negative length becomes a huge `size_t`; that, a write past the end
-- of `dst` and a read past the end of `src` are `none`.
abbrev pub memcpy : Bytes → ℕ → Bytes → ℤ → Option Bytes
memcpy dst off src (negsuc n) = none
memcpy dst off src (pos n) =
    if leb (off + n) (length dst) && leb n (length src)
    then some (take off dst ++ (take n src ++ drop (off + n) dst))
    else none

-- A copy in bounds does not fault, and keeps the size of the array.
pub memcpy_in_bounds :
    (dst : Bytes) (off : ℕ) (src : Bytes) (n : ℕ)
    → off + n ≤ length dst
    → n ≤ length src
    → memcpy dst off src (pos n) ≡ some (take off dst ++ (take n src ++ drop (off + n) dst))
memcpy_in_bounds dst off src n h k = ground arith

pub length-memcpy :
    (dst : Bytes) (off : ℕ) (src : Bytes) (n : ℕ)
    → off + n ≤ length dst
    → n ≤ length src
    → length (take off dst ++ (take n src ++ drop (off + n) dst)) ≡ length dst
length-memcpy dst off src n h k = omega (
  arith,
  length-append (take off dst) (take n src ++ drop (off + n) dst),
  length-append (take n src) (drop (off + n) dst),
  length-take off dst,
  length-take n src,
  length-drop (off + n) dst,
)

-- A copy to the start of an array.
pub memcpy_start :
    (dst src : Bytes) (n : ℕ)
    → n ≤ length dst
    → n ≤ length src
    → memcpy dst 0 src (pos n) ≡ some (take n src ++ drop n dst)
memcpy_start dst src n h k =
    memcpy_in_bounds dst 0 src n (omega arith) k
    ∙ ap (λ m. some (take n src ++ drop m dst)) (omega arith)

pub length-memcpy_start :
    (dst src : Bytes) (n : ℕ)
    → n ≤ length dst
    → n ≤ length src
    → length (take n src ++ drop n dst) ≡ length dst
length-memcpy_start dst src n h k =
    omega (arith, length-append (take n src) (drop n dst), length-take n src, length-drop n dst)
