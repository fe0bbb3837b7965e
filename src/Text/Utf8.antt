-- ===== src/Text/Utf8.antt =====
-- What `copyUtf8Truncated` of main/src/utility.cpp writes.
pub mod Sequences
use plant_watering.Prelude.{
  ℕ, zero, suc, ◌-◌, ◌≤◌, ◌<◌, ◌≡◌, ◌≢◌, refl, sym, subst, ap, ◌∙◌, List, [], ◌∷◌, ◌++◌, ltb, leb,
  ◌==◌, ◌&&◌, ◌||◌, if◌then◌else◌, length, take, drop, arith, Bool, true, false, if_rule,
  length-append, append-take-drop,
}
use plant_watering.Prelude.Bytes.{byte_at}
use plant_watering.Text.{
  between, is_utf8_continuation, utf8_sequence_length, copy_loop, copy_utf8_truncated,
}
use plant_watering.Text.Utf8.Sequences.{Sequence, IsStray, utf8_sequence_length-Found, none-IsStray}

-- What a copy of a text has with room for some bytes: the sequences of the text in their order, up
-- to the end of the text or the first one that does not fit, without the stray bytes.
pub data Copied : List ℕ → ℕ → List ℕ → Type 0 where
  at_end : {max_bytes : ℕ} → Copied [] max_bytes []
  stray :
      {max_bytes : ℕ} (x : ℕ) (src out : List ℕ)
      → IsStray (x ∷ src)
      → Copied src max_bytes out
      → Copied (x ∷ src) max_bytes out
  full :
      {max_bytes : ℕ} (s rest : List ℕ)
      → Sequence s
      → max_bytes < length s
      → Copied (s ++ rest) max_bytes []
  sequence :
      {max_bytes : ℕ} (s rest out : List ℕ)
      → Sequence s
      → length s ≤ max_bytes
      → Copied rest (max_bytes - length s) out
      → Copied (s ++ rest) max_bytes (s ++ out)

length-drop_le : (n : ℕ) (xs : List ℕ) → 0 < n → length (drop n xs) ≤ length xs - 1
length-drop_le (suc zero) [] h = omega arith
length-drop_le (suc zero) (x ∷ xs) h = omega arith
length-drop_le (suc (suc n)) [] h = omega arith
length-drop_le (suc (suc n)) (x ∷ xs) h = omega (arith, length-drop_le (suc n) xs (omega arith))
length-drop_le zero xs h = absurd (omega arith)

copy_loop-Copied :
    (fuel : ℕ) (src : List ℕ) (max_bytes : ℕ)
    → length src ≤ fuel
    → Copied src max_bytes (copy_loop fuel src max_bytes)
unfolding copy_loop
copy_loop-Copied zero [] max_bytes h = at_end
copy_loop-Copied zero (x ∷ src) max_bytes h = absurd (omega arith)
copy_loop-Copied (suc fuel) [] max_bytes h = at_end
copy_loop-Copied (suc fuel) (x ∷ src) max_bytes h =
    let all : List ℕ = x ∷ src in
    let n = utf8_sequence_length all in
    let Goal = λ (out : List ℕ). Copied (x ∷ src) max_bytes out in
    if_rule Goal (length all == 0) (λ e. absurd (ground (arith, e)))
      (λ _.
        if_rule Goal (n == 0)
          (λ e.
            stray x src _ (none-IsStray all (ground (arith, e)))
              (copy_loop-Copied fuel src max_bytes (omega arith)))
          (λ some_bytes.
            let (front, size) = utf8_sequence_length-Found all (ground (arith, some_bytes)) in
            let whole = append-take-drop n all in
            if_rule Goal (ltb max_bytes n)
              (λ e.
                subst (λ l. Copied l max_bytes []) whole
                  (full (take n all) (drop n all) front (ground (arith, e, size))))
              (λ e.
                let shorter = length-drop_le n all (ground (arith, some_bytes)) in
                let rest =
                  copy_loop-Copied fuel (drop n all) (max_bytes - n) (omega (arith, shorter)) in
                subst
                  (λ l.
                    Copied l max_bytes (take n all ++ copy_loop fuel (drop n all) (max_bytes - n)))
                  whole
                  (sequence (take n all) (drop n all) _ front (ground (arith, e, size)) (
                    subst
                      (λ k.
                        Copied (drop n all) (max_bytes - k)
                          (copy_loop fuel (drop n all) (max_bytes - n)))
                      (sym size) rest)))))

Copied-fits : {src out : List ℕ} {max_bytes : ℕ} → Copied src max_bytes out → length out ≤ max_bytes
Copied-fits at_end = omega arith
Copied-fits (stray x src out none_there c) = Copied-fits c
Copied-fits (full s rest front big) = omega arith
Copied-fits (sequence s rest out front small c) = omega (arith, length-append s out, Copied-fits c)

-- The copy fits the buffer with its terminating 0. It consists of the well-formed UTF-8 sequences of
-- the source in their order, with the bytes left out at which no sequence starts, and ends at the
-- end of the source or before the first sequence that does not fit.
pub copy_utf8_truncated-Copied :
    (src : List ℕ) (dst_size : ℕ)
    → 0 < dst_size
    → (length (copy_utf8_truncated src dst_size) < dst_size)
      × Copied src (dst_size - 1) (copy_utf8_truncated src dst_size)
unfolding copy_utf8_truncated
copy_utf8_truncated-Copied src dst_size h =
    let copied = copy_loop-Copied (length src) src (dst_size - 1) (omega arith) in
    let some_room : dst_size == 0 ≡ false = ground arith in
    let fits = Copied-fits copied in rw some_room (omega (arith, fits), copied)
