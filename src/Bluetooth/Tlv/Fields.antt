-- ===== src/Bluetooth/Tlv/Fields.antt =====
-- What a body says: the byte strings that are read are exactly the concatenations of fields, and a
-- search finds the first field of the type.
use plant_watering.Prelude.{
  ℕ, zero, suc, ◌+◌, ◌≤◌, ◌<◌, ◌≡◌, refl, sym, ap, ◌∙◌, inl, inr, ◌↔◌, true, List, [], ◌∷◌, ◌++◌,
  Option, none, some, ltb, ◌==◌, if◌then◌else◌, length, drop, arith, length-append,
  get_or-append_right, drop-append_right, take-append, length-take, length-drop, append-take-drop,
  Bool-cases, Option-cases, lt→ltb, drop-cons, drop-drop, drop_all, ltb→ge,
}
use mathlib.Core.List.{append_assoc}
use plant_watering.Prelude.Bytes.{byte_at}
use plant_watering.Bluetooth.Tlv.{TlvFieldView, tlv_next, keep_first, find_loop, find_first_field}

unfoldable pub field_bytes : TlvFieldView → List ℕ
field_bytes f = f.type ∷ length f.value ∷ f.value

unfoldable pub body_bytes : List TlvFieldView → List ℕ
unfolding field_bytes
body_bytes [] = []
body_bytes (f ∷ fs) = field_bytes f ++ body_bytes fs

-- The first field of a type, by itself.
unfoldable pub first_of_type : ℕ → List TlvFieldView → Option TlvFieldView
first_of_type type [] = none
first_of_type type (f ∷ fs) = if f.type == type then some f else first_of_type type fs

-- The search keeps what it has found, and otherwise finds the first field of the rest.
abbrev or_first : ℕ → Option TlvFieldView → List TlvFieldView → Option TlvFieldView
or_first type none fs = first_of_type type fs
or_first type (some f) fs = some f

keep_first-or_first :
    (type : ℕ) (found : Option TlvFieldView) (f : TlvFieldView) (fs : List TlvFieldView)
    → or_first type (keep_first type found f) fs ≡ or_first type found (f ∷ fs)
unfolding first_of_type
keep_first-or_first type none f fs = elim (Bool-cases (f.type == type)) [
  | inl e ↦ rw e refl
  | inr e ↦ rw e refl
]
keep_first-or_first type (some g) f fs = refl

or_first-nil : (type : ℕ) (found : Option TlvFieldView) → or_first type found [] ≡ found
unfolding first_of_type
or_first-nil type none = refl
or_first-nil type (some f) = refl

pub tlv_next-append :
    (before : List ℕ) (f : TlvFieldView) (after : List ℕ) (offset : ℕ)
    → offset ≡ length before
    → tlv_next (before ++ (field_bytes f ++ after)) offset ≡ some (f, offset + 2 + length f.value)
unfolding tlv_next field_bytes
tlv_next-append before f after offset e =
    let ys : List ℕ = f.type ∷ length f.value ∷ (f.value ++ after) in
    ground (
      arith,
      get_or-append_right before ys offset 0 0 (omega arith),
      get_or-append_right before ys (suc offset) 1 0 (omega arith),
      drop-append_right before ys (offset + 2) 2 (omega arith),
      take-append f.value after,
      length-append before ys,
      length-append f.value after,
    )

find_loop-body_bytes :
    (fuel : ℕ) (fs : List TlvFieldView) (before : List ℕ) (offset type : ℕ)
    (found : Option TlvFieldView)
    → offset ≡ length before
    → length (body_bytes fs) < fuel
    → find_loop fuel (before ++ body_bytes fs) offset type found ≡ some (or_first type found fs)
unfolding find_loop first_of_type body_bytes
find_loop-body_bytes zero fs before offset type found e h = absurd (omega arith)
find_loop-body_bytes (suc fuel) [] before offset type found e h =
    ground (arith, length-append before [], or_first-nil type found)
find_loop-body_bytes (suc fuel) (f ∷ fs) before offset type found e h =
    let here : ltb offset (length (before ++ body_bytes (f ∷ fs))) ≡ true = lt→ltb offset _ (
      omega (
        arith,
        length-append before (body_bytes (f ∷ fs)),
        length-append f.value (body_bytes fs),
      )) in
    rw (here, tlv_next-append before f (body_bytes fs) offset e)
      (rw (sym (append_assoc before (field_bytes f) (body_bytes fs))) (
        find_loop-body_bytes fuel fs (before ++ field_bytes f) (offset + 2 + length f.value) type
          (keep_first type found f) (omega (arith, length-append before (field_bytes f)))
          (omega (arith, length-append f.value (body_bytes fs)))
        ∙ ap some (keep_first-or_first type found f fs)))

-- A body that is a concatenation of fields is read to its end, and the search answers with the
-- first field of the type: the fuel of the search is enough for every such body.
pub find_first_field-body_bytes :
    (fs : List TlvFieldView) (type : ℕ)
    → find_first_field (body_bytes fs) type ≡ some (first_of_type type fs)
unfolding find_first_field
find_first_field-body_bytes fs type =
    find_loop-body_bytes (suc (length (body_bytes fs))) fs [] 0 type none refl (omega arith)

-- What a successful `btTlvNext` has read.
tlv_next-inv :
    (tlvs : List ℕ) (offset next : ℕ) (f : TlvFieldView)
    → tlv_next tlvs offset ≡ some (f, next)
    → (drop offset tlvs ≡ field_bytes f ++ drop next tlvs) × (next ≤ length tlvs)
unfolding tlv_next field_bytes
tlv_next-inv tlvs offset next f e =
    let len = byte_at tlvs (suc offset) in
    ground (
      arith,
      drop-cons offset tlvs 0,
      drop-cons (suc offset) tlvs 0,
      drop-drop offset 2 tlvs,
      append-take-drop len (drop (offset + 2) tlvs),
      drop-drop (offset + 2) len tlvs,
      length-drop (offset + 2) tlvs,
      length-take len (drop (offset + 2) tlvs),
    )

find_loop-inv :
    (fuel : ℕ) (tlvs : List ℕ) (offset type : ℕ) (found r : Option TlvFieldView)
    → offset ≤ length tlvs
    → find_loop fuel tlvs offset type found ≡ some r
    → (fs : List TlvFieldView) × (drop offset tlvs ≡ body_bytes fs) × (r ≡ or_first type found fs)
unfolding find_loop body_bytes first_of_type
find_loop-inv zero tlvs offset type found r h e = ground arith
find_loop-inv (suc fuel) tlvs offset type found r h e =
    elim (Bool-cases (ltb offset (length tlvs))) [
      | inr ended ↦ ([], drop_all offset tlvs (ltb→ge offset _ ended), ground arith)
      | inl more ↦ elim (Option-cases (tlv_next tlvs offset)) [
        | inl bad ↦ ground arith
        | inr ((f, next), good) ↦
            let (read, fits) = tlv_next-inv tlvs offset next f good in
            let (fs, rest, found_is) =
              find_loop-inv fuel tlvs next type (keep_first type found f) r fits
                (rw (more, good) at e) in
            (
              f ∷ fs,
              read ∙ ap (◌++◌ (field_bytes f)) rest,
              found_is ∙ keep_first-or_first type found f fs,
            )
      ]
    ]

find_first_field-inv :
    (tlvs : List ℕ) (type : ℕ) (r : Option TlvFieldView)
    → find_first_field tlvs type ≡ some r
    → (fs : List TlvFieldView) × (tlvs ≡ body_bytes fs) × (r ≡ first_of_type type fs)
unfolding find_first_field
find_first_field-inv tlvs type r e =
    find_loop-inv (suc (length tlvs)) tlvs 0 type none r (omega arith) e

-- The search succeeds exactly on concatenations of fields, so a body that is cut off in the middle
-- of a field, or has a stray byte at its end, is refused as a whole; the answer is the first field
-- of the type.
pub find_first_field_iff :
    (tlvs : List ℕ) (type : ℕ) (r : Option TlvFieldView)
    → (find_first_field tlvs type ≡ some r)
      ↔ ((fs : List TlvFieldView) × (tlvs ≡ body_bytes fs) × (r ≡ first_of_type type fs))
find_first_field_iff tlvs type r = (
  find_first_field-inv tlvs type r,
  λ (fs, whole, found). rw (whole, found) (find_first_field-body_bytes fs type),
)
