-- ===== src/Text/Utf8/Sequences.antt =====
-- The UTF-8 sequences that `utf8SequenceLength` of main/src/utility.cpp finds.
use plant_watering.Prelude.{
  ℕ, ◌≤◌, ◌<◌, ◌≡◌, ◌≢◌, refl, ap, ◌∙◌, List, [], ◌∷◌, ◌++◌, leb, ◌==◌, ◌&&◌, ◌||◌, if◌then◌else◌,
  length, take, arith, Bool, true, false, if_rule,
}
use plant_watering.Prelude.Bytes.{byte_at}
use plant_watering.Text.{between, is_utf8_continuation, utf8_sequence_length}

-- A continuation byte.
abbrev pub IsContinuation : ℕ → Type 0
IsContinuation c = (0x80 ≤ c) × (c ≤ 0xBF)

-- The well-formed byte sequences of UTF-8, by their first bytes (table 3-7 of the Unicode Standard).
pub data Sequence : List ℕ → Type 0 where
  ascii : {a : ℕ} → a ≤ 0x7F → Sequence (a ∷ [])
  two : {a b : ℕ} → (0xC2 ≤ a) × (a ≤ 0xDF) → IsContinuation b → Sequence (a ∷ b ∷ [])
  three_e0 :
      {a b c : ℕ}
      → a ≡ 0xE0
      → (0xA0 ≤ b) × (b ≤ 0xBF)
      → IsContinuation c
      → Sequence (a ∷ b ∷ c ∷ [])
  three :
      {a b c : ℕ}
      → (0xE1 ≤ a) × (a ≤ 0xEF)
      → a ≢ 0xED
      → IsContinuation b
      → IsContinuation c
      → Sequence (a ∷ b ∷ c ∷ [])
  three_ed :
      {a b c : ℕ}
      → a ≡ 0xED
      → (0x80 ≤ b) × (b ≤ 0x9F)
      → IsContinuation c
      → Sequence (a ∷ b ∷ c ∷ [])
  four_f0 :
      {a b c d : ℕ}
      → a ≡ 0xF0
      → (0x90 ≤ b) × (b ≤ 0xBF)
      → IsContinuation c
      → IsContinuation d
      → Sequence (a ∷ b ∷ c ∷ d ∷ [])
  four :
      {a b c d : ℕ}
      → (0xF1 ≤ a) × (a ≤ 0xF3)
      → IsContinuation b
      → IsContinuation c
      → IsContinuation d
      → Sequence (a ∷ b ∷ c ∷ d ∷ [])
  four_f4 :
      {a b c d : ℕ}
      → a ≡ 0xF4
      → (0x80 ≤ b) × (b ≤ 0x8F)
      → IsContinuation c
      → IsContinuation d
      → Sequence (a ∷ b ∷ c ∷ d ∷ [])

-- No sequence stands at the front of a text.
abbrev pub IsStray : List ℕ → Type 0
IsStray src = (s rest : List ℕ) → Sequence s → src ≢ s ++ rest

-- The code's length of a sequence at the front is the length of the sequence.
utf8_sequence_length-Sequence :
    (s rest : List ℕ) → Sequence s → utf8_sequence_length (s ++ rest) ≡ length s
unfolding utf8_sequence_length
utf8_sequence_length-Sequence s rest (ascii h) = ground arith
utf8_sequence_length-Sequence s rest (two h k) = ground arith
utf8_sequence_length-Sequence s rest (three_e0 h k l) = ground arith
utf8_sequence_length-Sequence s rest (three h ne k l) = ground arith
utf8_sequence_length-Sequence s rest (three_ed h k l) = ground arith
utf8_sequence_length-Sequence s rest (four_f0 h k l m) = ground arith
utf8_sequence_length-Sequence s rest (four {a} h k l m) =
    let not_ascii : leb a 0x7F ≡ false = ground arith in
    let not_two : between 0xC2 0xDF a ≡ false = ground arith in
    let not_e0 : (a == 0xE0) ≡ false = ground arith in
    let not_three : between 0xE1 0xEC a || between 0xEE 0xEF a ≡ false = ground arith in
    let not_ed : (a == 0xED) ≡ false = ground arith in
    let not_f0 : (a == 0xF0) ≡ false = ground arith in
    rw (not_ascii, not_two, not_e0, not_three, not_ed, not_f0) (ground (arith, h, k, l, m))
utf8_sequence_length-Sequence s rest (four_f4 h k l m) = ground arith

take_two : (src : List ℕ) → 2 ≤ length src → take 2 src ≡ byte_at src 0 ∷ byte_at src 1 ∷ []
take_two [] h = absurd (omega arith)
take_two (a ∷ []) h = absurd (omega arith)
take_two (a ∷ b ∷ src) h = refl

take_three :
    (src : List ℕ)
    → 3 ≤ length src
    → take 3 src ≡ byte_at src 0 ∷ byte_at src 1 ∷ byte_at src 2 ∷ []
take_three [] h = absurd (omega arith)
take_three (a ∷ src) h = ap (λ (l : List ℕ). a ∷ l) (take_two src (omega arith))

take_four :
    (src : List ℕ)
    → 4 ≤ length src
    → take 4 src ≡ byte_at src 0 ∷ byte_at src 1 ∷ byte_at src 2 ∷ byte_at src 3 ∷ []
take_four [] h = absurd (omega arith)
take_four (a ∷ src) h = ap (λ (l : List ℕ). a ∷ l) (take_three src (omega arith))

take_one : (src : List ℕ) → 1 ≤ length src → take 1 src ≡ byte_at src 0 ∷ []
take_one [] h = absurd (omega arith)
take_one (a ∷ src) h = refl

-- A length that the code finds is the length of a sequence at the front.
abbrev pub Found : List ℕ → ℕ → Type 0
Found src n = n ≢ 0 → Sequence (take n src) × (length (take n src) ≡ n)

nothing-Found : (src : List ℕ) → Found src 0
nothing-Found src h = absurd (h refl)

found : (src t : List ℕ) (n : ℕ) → take n src ≡ t → Sequence t → length t ≡ n → Found src n
found src t n e s size h = rw e (s, size)

if_long-Found :
    (src : List ℕ) (n : ℕ) (ok : Bool)
    → (n ≤ length src → ok ≡ true → Found src n)
    → Found src (if leb n (length src) && ok then n else 0)
if_long-Found src n ok f =
    if_rule (Found src) (leb n (length src) && ok) (λ h. f (ground (arith, h)) (ground (arith, h)))
      (λ _. nothing-Found src)

-- The last branches of the code, on the first byte of a sequence of four.
abbrev four_length : ℕ → ℕ → ℕ → ℕ → ℕ → ℕ
four_length n c0 c1 c2 c3 =
    let tail2 = is_utf8_continuation c2 && is_utf8_continuation c3 in
    if c0 == 0xF0
    then (if leb 4 n && (between 0x90 0xBF c1 && tail2) then 4 else 0)
    else if between 0xF1 0xF3 c0
    then (if leb 4 n && (is_utf8_continuation c1 && tail2) then 4 else 0)
    else if c0 == 0xF4
    then (if leb 4 n && (between 0x80 0x8F c1 && tail2) then 4 else 0)
    else 0

four_length-Found :
    (src : List ℕ)
    → Found src
        (four_length (length src) (byte_at src 0) (byte_at src 1) (byte_at src 2) (byte_at src 3))
four_length-Found src =
    let c0 = byte_at src 0 in
    let c1 = byte_at src 1 in
    let tail2 = is_utf8_continuation (byte_at src 2) && is_utf8_continuation (byte_at src 3) in
    if_rule (Found src) (c0 == 0xF0)
      (λ h. if_long-Found src 4 (between 0x90 0xBF c1 && tail2) (λ long ok.
        found src _ 4 (take_four src long)
          (four_f0 (ground (arith, h)) (ground (arith, ok)) (ground (arith, ok))
            (ground (arith, ok)))
          refl))
      (λ _.
        if_rule (Found src) (between 0xF1 0xF3 c0)
          (λ h. if_long-Found src 4 (is_utf8_continuation c1 && tail2) (λ long ok.
            found src _ 4 (take_four src long)
              (four (ground (arith, h)) (ground (arith, ok)) (ground (arith, ok))
                (ground (arith, ok)))
              refl))
          (λ _.
            if_rule (Found src) (c0 == 0xF4)
              (λ h. if_long-Found src 4 (between 0x80 0x8F c1 && tail2) (λ long ok.
                found src _ 4 (take_four src long)
                  (four_f4 (ground (arith, h)) (ground (arith, ok)) (ground (arith, ok))
                    (ground (arith, ok)))
                  refl))
              (λ _. nothing-Found src)))

-- The branches of the code from the first byte of a sequence of three on.
abbrev three_length : ℕ → ℕ → ℕ → ℕ → ℕ → ℕ
three_length n c0 c1 c2 c3 =
    let tail = is_utf8_continuation c2 in
    if c0 == 0xE0
    then (if leb 3 n && (between 0xA0 0xBF c1 && tail) then 3 else 0)
    else if between 0xE1 0xEC c0 || between 0xEE 0xEF c0
    then (if leb 3 n && (is_utf8_continuation c1 && tail) then 3 else 0)
    else if c0 == 0xED
    then (if leb 3 n && (between 0x80 0x9F c1 && tail) then 3 else 0)
    else four_length n c0 c1 c2 c3

three_length-Found :
    (src : List ℕ)
    → Found src
        (three_length (length src) (byte_at src 0) (byte_at src 1) (byte_at src 2) (byte_at src 3))
three_length-Found src =
    let c0 = byte_at src 0 in
    let c1 = byte_at src 1 in
    let tail = is_utf8_continuation (byte_at src 2) in
    if_rule (Found src) (c0 == 0xE0)
      (λ h. if_long-Found src 3 (between 0xA0 0xBF c1 && tail) (λ long ok.
        found src _ 3 (take_three src long)
          (three_e0 (ground (arith, h)) (ground (arith, ok)) (ground (arith, ok))) refl))
      (λ _.
        if_rule (Found src) (between 0xE1 0xEC c0 || between 0xEE 0xEF c0)
          (λ h. if_long-Found src 3 (is_utf8_continuation c1 && tail) (λ long ok.
            found src _ 3 (take_three src long)
              (three (ground (arith, h)) (λ e. ground (arith, h, e)) (ground (arith, ok))
                (ground (arith, ok)))
              refl))
          (λ _.
            if_rule (Found src) (c0 == 0xED)
              (λ h. if_long-Found src 3 (between 0x80 0x9F c1 && tail) (λ long ok.
                found src _ 3 (take_three src long)
                  (three_ed (ground (arith, h)) (ground (arith, ok)) (ground (arith, ok))) refl))
              (λ _. four_length-Found src)))

pub utf8_sequence_length-Found : (src : List ℕ) → Found src (utf8_sequence_length src)
unfolding utf8_sequence_length
utf8_sequence_length-Found src =
    let c0 = byte_at src 0 in
    let c1 = byte_at src 1 in
    if_rule (Found src) (length src == 0) (λ _. nothing-Found src)
      (λ some_there.
        if_rule (Found src) (leb c0 0x7F)
          (λ h.
            found src _ 1 (take_one src (ground (arith, some_there))) (ascii (ground (arith, h)))
              refl)
          (λ _.
            if_rule (Found src) (between 0xC2 0xDF c0)
              (λ h. if_long-Found src 2 (is_utf8_continuation c1) (λ long ok.
                found src _ 2 (take_two src long) (two (ground (arith, h)) (ground (arith, ok)))
                  refl))
              (λ _. three_length-Found src)))

pub Sequence-nonempty : {s : List ℕ} → Sequence s → 0 < length s
Sequence-nonempty (ascii h) = omega arith
Sequence-nonempty (two h k) = omega arith
Sequence-nonempty (three_e0 h k l) = omega arith
Sequence-nonempty (three h ne k l) = omega arith
Sequence-nonempty (three_ed h k l) = omega arith
Sequence-nonempty (four_f0 h k l m) = omega arith
Sequence-nonempty (four h k l m) = omega arith
Sequence-nonempty (four_f4 h k l m) = omega arith

pub none-IsStray : (src : List ℕ) → utf8_sequence_length src ≡ 0 → IsStray src
none-IsStray src zero_length s rest front e =
    let n = ap (λ l. utf8_sequence_length l) e ∙ utf8_sequence_length-Sequence s rest front in
    absurd (omega (arith, n, zero_length, Sequence-nonempty front))
