-- ===== src/Message/Fields/Scanned.antt =====
-- internal/message/message.go: what scan returns.
use outboxd.Common.{
  ℕ, zero, suc, ◌+◌, ◌≤◌, true, Bytes, some, List, [], ◌∷◌, ◌++◌, length, ◌==◌, ◌≡◌, refl, sym, ap,
  ◌∙◌, arith, Option-cases, Bool-cases, inl, inr, All,
}
use outboxd.Common.Result.{ok, Result-cases}
use outboxd.Common.Strings.{to_lower_ascii}
use outboxd.Message.Normalize.{crlf}
use outboxd.Message.Fields.{
  Field, cut_line, cut_colon, is_fold, add_fold, add_field, add_line, reverse_onto, scan_from, scan,
  valid_field_name,
}
use outboxd.Message.Fields.Fuel.{cut_line-parts}

abbrev pub join_values : List Field → Bytes
join_values [] = []
join_values (f ∷ fs) = f.value ++ join_values fs

-- The values of a list in reverse order.
abbrev values_so_far : List Field → Bytes
values_so_far [] = []
values_so_far (f ∷ fs) = values_so_far fs ++ f.value

append_assoc : (xs ys zs : Bytes) → (xs ++ ys) ++ zs ≡ xs ++ (ys ++ zs)
append_assoc [] ys zs = refl
append_assoc (x ∷ xs) ys zs = ap (λ t. x ∷ t) (append_assoc xs ys zs)

append_nil : (xs : Bytes) → xs ++ [] ≡ xs
append_nil [] = refl
append_nil (x ∷ xs) = ap (λ t. x ∷ t) (append_nil xs)

-- The value of a field is its name, a colon and its body; `name` is in lower case.
pub record IsField (f : Field) : Type 0 where
  pub written : Bytes
  pub body : Bytes
  pub value : f.value ≡ written ++ (b':' ∷ body)
  pub name : f.name ≡ to_lower_ascii written
  pub valid : valid_field_name written ≡ true

cut_colon-parts :
    (s before after : Bytes) → cut_colon s ≡ some (before, after) → s ≡ before ++ (b':' ∷ after)
unfolding cut_colon
cut_colon-parts [] before after h = cc
cut_colon-parts (c ∷ rest) before after h = elim (Bool-cases (c == b':')) [
  | inl e ↦ ground arith
  | inr e ↦ elim (Option-cases (cut_colon rest)) [
    | inl n ↦ ground arith
    | inr ((before', after'), n) ↦
        let ih = cut_colon-parts rest before' after' n in ground (arith, ih)
  ]
]

abbrev Grows : Bytes → List Field → List Field → Type 0
Grows line fields fields' =
    (values_so_far fields' ≡ values_so_far fields ++ (line ++ crlf))
    × (All IsField fields → All IsField fields')
    × (length fields ≤ 1000 → length fields' ≤ 1000)

fold-IsField :
    (f : Field) (line : Bytes)
    → IsField f
    → IsField (record f { value = f.value ++ (line ++ crlf) })
fold-IsField f line h = record {
  written = h.written;
  body = h.body ++ (line ++ crlf);
  value =
      ap (λ t. t ++ (line ++ crlf)) h.value ∙ append_assoc h.written (b':' ∷ h.body) (line ++ crlf);
  name = h.name;
  valid = h.valid;
}

add_fold-Grows :
    (line : Bytes) (fields fields' : List Field)
    → add_fold line fields ≡ ok fields'
    → Grows line fields fields'
unfolding add_fold
add_fold-Grows line [] fields' h = cc
add_fold-Grows line (f ∷ fields) fields' h =
    let f' : Field = record f { value = f.value ++ (line ++ crlf) } in
    let e : fields' ≡ f' ∷ fields = ground arith in
    rw e (
      sym (append_assoc (values_so_far fields) f.value (line ++ crlf)),
      λ a. (fold-IsField f line a.0, a.1),
      λ n. n,
    )

add_field-Grows :
    (line : Bytes) (fields fields' : List Field)
    → add_field line fields ≡ ok fields'
    → Grows line fields fields'
unfolding add_field
add_field-Grows line fields fields' h = elim (Option-cases (cut_colon line)) [
  | inl n ↦ ground arith
  | inr ((name, body), n) ↦
      let f : Field = record { name = to_lower_ascii name; value = line ++ crlf } in
      let e : fields' ≡ f ∷ fields = ground arith in
      let few : suc (length fields) ≤ 1000 = ground arith in
      let valid : valid_field_name name ≡ true = ground arith in
      let cut = cut_colon-parts line name body n in
      let is_field : IsField f = record {
        written = name;
        body = body ++ crlf;
        value = ap (λ t. t ++ crlf) cut ∙ append_assoc name (b':' ∷ body) crlf;
        name = refl;
        valid = valid;
      } in
      rw e (refl, λ a. (is_field, a), λ k. few)
]

add_line-Grows :
    (line : Bytes) (fields fields' : List Field)
    → add_line line fields ≡ ok fields'
    → Grows line fields fields'
unfolding add_line
add_line-Grows line fields fields' h = elim (Bool-cases (is_fold line)) [
  | inl e ↦ add_fold-Grows line fields fields' (rw e at h)
  | inr e ↦ add_field-Grows line fields fields' (rw e at h)
]

reverse_onto-values :
    (fs out : List Field) → join_values (reverse_onto fs out) ≡ values_so_far fs ++ join_values out
reverse_onto-values [] out = refl
reverse_onto-values (f ∷ fs) out =
    reverse_onto-values fs (f ∷ out)
    ∙ sym (append_assoc (values_so_far fs) f.value (join_values out))

reverse_onto-All :
    (fs out : List Field) → All IsField fs → All IsField out → All IsField (reverse_onto fs out)
reverse_onto-All [] out a b = b
reverse_onto-All (f ∷ fs) out a b = reverse_onto-All fs (f ∷ out) a.1 (a.0, b)

length-reverse_onto : (fs out : List Field) → length (reverse_onto fs out) ≡ length fs + length out
length-reverse_onto [] out = omega arith
length-reverse_onto (f ∷ fs) out = omega (arith, length-reverse_onto fs (f ∷ out))

scan_from-fields :
    (fuel : ℕ) (header : Bytes) (fields out : List Field)
    → scan_from fuel header fields ≡ some (ok out)
    → All IsField fields
    → length fields ≤ 1000
    → (join_values out ≡ values_so_far fields ++ header) × All IsField out × (length out ≤ 1000)
unfolding scan_from
scan_from-fields fuel [] fields out h a n =
    let e : reverse_onto fields [] ≡ out = ground arith in
    rw (← e) (
      reverse_onto-values fields [],
      reverse_onto-All fields [] a tt,
      omega (arith, length-reverse_onto fields []),
    )
scan_from-fields zero (c ∷ rest) fields out h a n = cc
scan_from-fields (suc fuel) (c ∷ rest) fields out h a n =
    elim (Option-cases (cut_line (c ∷ rest))) [
      | inl e ↦ ground arith
      | inr ((line, after), e) ↦ elim (Result-cases (add_line line fields)) [
        | inr (f, g) ↦ ground arith
        | inl (fields', g) ↦
            let (values, keeps, few) = add_line-Grows line fields fields' g in
            let next : scan_from fuel after fields' ≡ some (ok out) = ground arith in
            let (joined, all_fields, bound) =
              scan_from-fields fuel after fields' out next (keeps a) (few n) in
            let whole = cut_line-parts (c ∷ rest) line after e in
            (
              joined
                  ∙ ap (λ t. t ++ after) values
                  ∙ append_assoc (values_so_far fields) (line ++ crlf) after
                  ∙ ap (λ t. values_so_far fields ++ t) (append_assoc line crlf after ∙ sym whole),
              all_fields,
              bound,
            )
      ]
    ]

-- The values of the fields that scan returns, in their order, are the header byte for byte: no line
-- is lost, and folds stay with their field. There are at most 1000 fields, and each is a valid name,
-- of which `name` is the lower case, before a colon and a body.
pub scan-fields :
    (header : Bytes) (fields : List Field)
    → scan header ≡ some (ok fields)
    → (join_values fields ≡ header) × All IsField fields × (length fields ≤ 1000)
unfolding scan
scan-fields header fields h = scan_from-fields (length header) header [] fields h tt (omega arith)
