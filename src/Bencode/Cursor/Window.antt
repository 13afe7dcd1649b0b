-- ===== src/Bencode/Cursor/Window.antt =====
-- A cursor as the part of the input that was read and the part that was not, and what the cursor's
-- steps do to the two.
use rbitt.Prelude.{
  ℕ, ◌+◌, ◌-◌, ◌≡◌, refl, ap, [], ◌∷◌, ◌++◌, append_assoc, Bytes, length, length-append,
  take-append, drop-append, arith,
}
use rbitt.Bencode.Value.{ok, err, unexpected_eof}
use rbitt.Bencode.Cursor.{Cursor, start, peek, next, remaining, slice_from, read_bytes, head?}

abbrev pub window : Bytes → Bytes → Cursor
window done rest = record { input = done ++ rest; pos = length done }

pub window-start : (s : Bytes) → start s ≡ window [] s
window-start s = refl

pub peek-window : (done rest : Bytes) → peek (window done rest) ≡ head? rest
unfolding peek
peek-window done rest = ap head? (drop-append done rest)

pub remaining-window : (done rest : Bytes) → remaining (window done rest) ≡ length rest
unfolding remaining
remaining-window done rest = omega (arith, length-append done rest)

window-append :
    (done s rest : Bytes) (n : ℕ)
    → n ≡ length done + length s
    → ◌≡◌ {A = Cursor} (record { input = done ++ (s ++ rest); pos = n }) (window (done ++ s) rest)
window-append done s rest n e = ground (arith, append_assoc done s rest, length-append done s)

pub next-window :
    (done : Bytes) (b : ℕ) (rest : Bytes)
    → next (window done (b ∷ rest)) ≡ ok (b, window (done ++ b ∷ []) rest)
unfolding next
next-window done b rest =
    ground
      (arith, peek-window done (b ∷ rest), window-append done (b ∷ []) rest (length done + 1) refl)

pub next-nil : (done : Bytes) → next (window done []) ≡ err unexpected_eof
unfolding next
next-nil done = ground (arith, peek-window done [])

pub read_bytes-window :
    (done s rest : Bytes)
    → read_bytes (length s) (window done (s ++ rest)) ≡ ok (s, window (done ++ s) rest)
unfolding read_bytes
read_bytes-window done s rest = ground (
  arith,
  length-append done (s ++ rest),
  length-append s rest,
  drop-append done (s ++ rest),
  take-append s rest,
  window-append done s rest (length done + length s) refl,
)

pub slice_from-window :
    (done s rest : Bytes) → slice_from (window (done ++ s) rest) (length done) ≡ s
unfolding slice_from
slice_from-window done s rest =
    let e : length (done ++ s) - length done ≡ length s = omega (arith, length-append done s) in
    rw (e, append_assoc, drop-append done (s ++ rest)) (take-append s rest)
