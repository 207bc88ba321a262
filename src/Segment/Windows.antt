-- ===== src/Segment/Windows.antt =====
-- Reading back what `copy` wrote over a part of a slice (cova/segment-memory.go).
use ccova.Prelude.{
  ℕ, zero, suc, ◌+◌, ◌≤◌, ◌≡◌, refl, ap, [], ◌∷◌, ◌++◌, arith, length, take, drop, length-append,
  length-take, length-drop, take-append_length,
}
use ccova.Segment.{Bytes, window, overwrite}

pub length-overwrite :
    (offset : ℕ) (source bytes : Bytes)
    → offset + length source ≤ length bytes
    → length (overwrite offset source bytes) ≡ length bytes
length-overwrite offset source bytes h = omega (
  arith,
  length-append (take offset bytes) (source ++ drop (length source) (drop offset bytes)),
  length-append source (drop (length source) (drop offset bytes)),
  length-take offset bytes,
  length-drop (length source) (drop offset bytes),
  length-drop offset bytes,
)

pub window-overwrite :
    (offset : ℕ) (source bytes : Bytes)
    → offset + length source ≤ length bytes
    → window offset (length source) (overwrite offset source bytes) ≡ source
window-overwrite zero source bytes h = take-append_length source (drop (length source) bytes)
window-overwrite (suc o) [] [] h = refl
window-overwrite (suc o) (s ∷ source) [] h = absurd (omega arith)
window-overwrite (suc o) source (b ∷ bytes) h = window-overwrite o source bytes (omega arith)

-- A window in front of the written part.
window-in_front :
    (p n : ℕ) (o : ℕ) (bytes rest : Bytes)
    → p + n ≤ o
    → o ≤ length bytes
    → window p n (take o bytes ++ rest) ≡ window p n bytes
window-in_front zero zero o bytes rest h k = refl
window-in_front zero (suc n) zero bytes rest h k = absurd (omega arith)
window-in_front zero (suc n) (suc o) [] rest h k = absurd (omega arith)
window-in_front zero (suc n) (suc o) (b ∷ bytes) rest h k =
    ap (◌∷◌ b) (window-in_front zero n o bytes rest (omega arith) (omega arith))
window-in_front (suc p) n zero bytes rest h k = absurd (omega arith)
window-in_front (suc p) n (suc o) [] rest h k = absurd (omega arith)
window-in_front (suc p) n (suc o) (b ∷ bytes) rest h k =
    window-in_front p n o bytes rest (omega arith) (omega arith)

window-past :
    (source bytes : Bytes) (p n : ℕ)
    → length source ≤ p
    → length source ≤ length bytes
    → window p n (source ++ drop (length source) bytes) ≡ window p n bytes
window-past [] bytes p n h k = refl
window-past (s ∷ source) [] p n h k = absurd (omega arith)
window-past (s ∷ source) (b ∷ bytes) zero n h k = absurd (omega arith)
window-past (s ∷ source) (b ∷ bytes) (suc p) n h k =
    window-past source bytes p n (omega arith) (omega arith)

pub window-overwrite_before :
    (offset : ℕ) (source bytes : Bytes) (p n : ℕ)
    → offset + length source ≤ length bytes
    → p + n ≤ offset
    → window p n (overwrite offset source bytes) ≡ window p n bytes
window-overwrite_before offset source bytes p n fits h =
    window-in_front p n offset bytes _ h (omega arith)

pub window-overwrite_after :
    (offset : ℕ) (source bytes : Bytes) (p n : ℕ)
    → offset + length source ≤ length bytes
    → offset + length source ≤ p
    → window p n (overwrite offset source bytes) ≡ window p n bytes
window-overwrite_after zero source bytes p n fits h =
    window-past source bytes p n (omega arith) (omega arith)
window-overwrite_after (suc o) source [] p n fits h = absurd (omega arith)
window-overwrite_after (suc o) source (b ∷ bytes) zero n fits h = absurd (omega arith)
window-overwrite_after (suc o) source (b ∷ bytes) (suc p) n fits h =
    window-overwrite_after o source bytes p n (omega arith) (omega arith)
