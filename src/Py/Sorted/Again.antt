-- ===== src/Py/Sorted/Again.antt =====
-- Sorting the keys of a value again changes nothing.
use protocol_c.Prelude.{
  ◌≡◌, refl, ap, ap₂, ◌∙◌, true, false, [], ◌∷◌, String, Text, codes, arith, Bool-cases, inl, inr,
}
use protocol_c.Py.Value.{
  Value, null, bool, int, float, str, arr, obj, Items, nil, cons, Dict, end, field,
}
use protocol_c.Py.Compare.{text_lt}
use protocol_c.Py.Sorted.{insert_field, sort_keys, sort_items, sort_dict}

text_lt_asym : (s t : Text) → text_lt s t ≡ true → text_lt t s ≡ false
unfolding text_lt
text_lt_asym [] [] h = refl
text_lt_asym [] (d ∷ ds) h = refl
text_lt_asym (c ∷ cs) [] h = cc
text_lt_asym (c ∷ cs) (d ∷ ds) h = ground (arith, text_lt_asym cs ds)

-- No key stands behind a greater one.
abbrev IsSorted : Dict → Type 0
IsSorted end = Unit
IsSorted (field k v end) = Unit
IsSorted (field k v (field j w d)) = (text_lt (codes j) (codes k) ≡ false) × IsSorted (field j w d)

insert_field-IsSorted :
    (k : String) (v : Value) (d : Dict) → IsSorted d → IsSorted (insert_field k v d)
unfolding insert_field
insert_field-IsSorted k v end h = tt
insert_field-IsSorted k v (field j w end) h = elim (Bool-cases (text_lt (codes j) (codes k))) [
  | inl less ↦ rw less (text_lt_asym (codes j) (codes k) less, tt)
  | inr more ↦ rw more (more, tt)
]
insert_field-IsSorted k v (field j w (field i u d)) (first, h) =
    let later = insert_field-IsSorted k v (field i u d) h in
    elim (Bool-cases (text_lt (codes j) (codes k))) [
      | inr more ↦ rw more (more, (first, h))
      | inl less ↦ elim (Bool-cases (text_lt (codes i) (codes k))) [
        | inl before ↦ rw (less, before) (first, rw before at later)
        | inr behind ↦ rw (less, behind) (text_lt_asym (codes j) (codes k) less, (behind, h))
      ]
    ]

insert_field-first :
    (k : String) (v : Value) (d : Dict) → IsSorted (field k v d) → insert_field k v d ≡ field k v d
unfolding insert_field
insert_field-first k v end h = refl
insert_field-first k v (field j w d) (first, h) = rw first refl

-- The values are sorted inside.
abbrev IsInside : Dict → Type 0
IsInside end = Unit
IsInside (field k v d) = (sort_keys v ≡ v) × IsInside d

insert_field-IsInside :
    (k : String) (v : Value) (d : Dict)
    → sort_keys v ≡ v
    → IsInside d
    → IsInside (insert_field k v d)
unfolding insert_field
insert_field-IsInside k v end e h = (e, tt)
insert_field-IsInside k v (field j w d) e (first, h) =
    elim (Bool-cases (text_lt (codes j) (codes k))) [
      | inl less ↦ rw less (first, insert_field-IsInside k v d e h)
      | inr more ↦ rw more (e, (first, h))
    ]

tail-IsSorted : (k : String) (v : Value) (d : Dict) → IsSorted (field k v d) → IsSorted d
tail-IsSorted k v end h = tt
tail-IsSorted k v (field j w d) (_, h) = h

sort_dict-fixed : (d : Dict) → IsSorted d → IsInside d → sort_dict d ≡ d
unfolding sort_dict
sort_dict-fixed end h i = refl
sort_dict-fixed (field k v d) h (e, i) =
    ap₂ (λ (w : Value) (x : Dict). insert_field k w x) e
      (sort_dict-fixed d (tail-IsSorted k v d h) i)
    ∙ insert_field-first k v d h

sort_dict-IsSorted : (d : Dict) → IsSorted (sort_dict d)
unfolding sort_dict
sort_dict-IsSorted end = tt
sort_dict-IsSorted (field k v d) =
    insert_field-IsSorted k (sort_keys v) (sort_dict d) (sort_dict-IsSorted d)

mutual
  unfolding sort_keys sort_items sort_dict

  -- Sorted keys stay as they are.
  pub sort_keys-again : (v : Value) → sort_keys (sort_keys v) ≡ sort_keys v
  sort_keys-again null = refl
  sort_keys-again (bool b) = refl
  sort_keys-again (int z) = refl
  sort_keys-again (float b) = refl
  sort_keys-again (str s) = refl
  sort_keys-again (arr vs) = ap arr (sort_items-again vs)
  sort_keys-again (obj d) =
      ap obj (sort_dict-fixed (sort_dict d) (sort_dict-IsSorted d) (sort_dict-IsInside d))

  sort_items-again : (vs : Items) → sort_items (sort_items vs) ≡ sort_items vs
  sort_items-again nil = refl
  sort_items-again (cons v vs) = ap₂ cons (sort_keys-again v) (sort_items-again vs)

  sort_dict-IsInside : (d : Dict) → IsInside (sort_dict d)
  sort_dict-IsInside end = tt
  sort_dict-IsInside (field k v d) =
      insert_field-IsInside k (sort_keys v) (sort_dict d) (sort_keys-again v) (sort_dict-IsInside d)

pub sort_dict-again : (d : Dict) → sort_dict (sort_dict d) ≡ sort_dict d
sort_dict-again d = sort_dict-fixed (sort_dict d) (sort_dict-IsSorted d) (sort_dict-IsInside d)
