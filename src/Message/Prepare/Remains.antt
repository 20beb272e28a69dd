-- ===== src/Message/Prepare/Remains.antt =====
-- internal/message/message.go: which fields of a submission PrepareContext leaves out, and which lines
-- it adds.
use Prim.{absurd, ⊥}
use outboxd.Common.{
  Bool, true, false, not, Bytes, codes, str_eq_iff, some, List, [], ◌∷◌, ◌++◌, ◌≡◌, ◌⊎◌, inl, inr,
  refl, sym, ◌∙◌, str_eq_cases, arith, Bool-cases, Option-cases,
}
use outboxd.Common.Strings.{is_empty}
use outboxd.Common.Utf8.{valid_utf8, has_high_bit, trim_space}
use outboxd.Message.Fields.{Field, text, first_field, valid_message_id}
use outboxd.Message.Normalize.{crlf}
use outboxd.Message.Prepare.{
  Library, Options, count_named, is_present, is_present_field, valid_date, usable, has_date, has_id,
  identifier, received, line_if, added, stays, kept,
}

date_is_no_id : codes "date" ≡ codes "message-id" → ⊥
date_is_no_id e = ground arith

module _ (lib : Library) (fields : List Field) where
  -- The first Date field has a date in it, and the first Message-ID field an identifier.
  abbrev pub HasDate : Type 0
  HasDate =
      (f : Field) × (first_field fields (codes "date") ≡ some f)
      × (is_empty (trim_space (text f)) ≡ false)
      × (lib.parses_date (trim_space (text f)) ≡ true)

  abbrev pub HasId : Type 0
  HasId =
      (f : Field) × (first_field fields (codes "message-id") ≡ some f)
      × (valid_message_id (text f) ≡ true)

  pub has_date-cases :
      ((has_date lib fields ≡ true) × HasDate) ⊎ ((has_date lib fields ≡ false) × ¬ HasDate)
  unfolding has_date usable valid_date
  has_date-cases = elim (Option-cases (first_field fields (codes "date"))) [
    | inl e ↦ inr (rw (has_date, e, usable) refl, λ (f, at, _, _). cc)
    | inr (f, e) ↦ elim (Bool-cases (valid_date lib f)) [
      | inl v ↦ inl (rw (has_date, e, usable) v, (f, e, ground arith, ground arith))
      | inr v ↦ inr (
        rw (has_date, e, usable) v,
        λ (g, at, full, parsed).
            let same : f ≡ g = cc in
            let w : valid_date lib g ≡ true = rw (valid_date, full, parsed) refl in cc,
      )
    ]
  ]

  pub has_id-cases : ((has_id lib fields ≡ true) × HasId) ⊎ ((has_id lib fields ≡ false) × ¬ HasId)
  unfolding has_id usable
  has_id-cases = elim (Option-cases (first_field fields (codes "message-id"))) [
    | inl e ↦ inr (rw (has_id, e, usable) refl, λ (f, at, _). cc)
    | inr (f, e) ↦ elim (Bool-cases (valid_message_id (text f))) [
      | inl v ↦ inl (rw (has_id, e, usable) v, (f, e, v))
      | inr v ↦ inr (rw (has_id, e, usable) v, λ (g, at, w). let same : f ≡ g = cc in cc)
    ]
  ]

  -- Bcc, Resent-Bcc and Return-Path are left out, and Date and Message-ID where the first one of the
  -- name is no date and no identifier.
  pub data LeftOut (f : Field) : Type 0 where
    bcc : f.name ≡ codes "bcc" → LeftOut f
    resent_bcc : f.name ≡ codes "resent-bcc" → LeftOut f
    return_path : f.name ≡ codes "return-path" → LeftOut f
    bad_date :
        f.name ≡ codes "date"
        → is_present_field fields (codes "date") ≡ true
        → ¬ HasDate
        → LeftOut f
    bad_id :
        f.name ≡ codes "message-id"
        → is_present_field fields (codes "message-id") ≡ true
        → ¬ HasId
        → LeftOut f

  -- The fields that stay, in their order.
  pub data Remains : List Field → List Field → Type 0 where
    none_left : Remains [] []
    keeps :
        {f : Field} {fs rest : List Field}
        → ¬ LeftOut f
        → Remains fs rest
        → Remains (f ∷ fs) (f ∷ rest)
    drops : {f : Field} {fs rest : List Field} → LeftOut f → Remains fs rest → Remains (f ∷ fs) rest

  stays-not-LeftOut : (f : Field) → stays lib fields f ≡ true → ¬ LeftOut f
  unfolding stays
  stays-not-LeftOut f h (bcc e) = ground (arith, str_eq_iff f.name (codes "bcc"))
  stays-not-LeftOut f h (resent_bcc e) = ground (arith, str_eq_iff f.name (codes "resent-bcc"))
  stays-not-LeftOut f h (return_path e) = ground (arith, str_eq_iff f.name (codes "return-path"))
  stays-not-LeftOut f h (bad_date e p lacks) = elim has_date-cases [
    | inl (_, has) ↦ lacks has
    | inr (b, _) ↦ ground (arith, str_eq_iff f.name (codes "date"))
  ]
  stays-not-LeftOut f h (bad_id e p lacks) = elim has_id-cases [
    | inl (_, has) ↦ lacks has
    | inr (b, _) ↦ elim (str_eq_cases f.name (codes "date")) [
      | inl (_, d) ↦ absurd (date_is_no_id (sym d ∙ e))
      | inr (d, _) ↦ ground (arith, str_eq_iff f.name (codes "message-id"))
    ]
  ]

  not-stays-LeftOut : (f : Field) → stays lib fields f ≡ false → LeftOut f
  unfolding stays
  not-stays-LeftOut f h = elim (str_eq_cases f.name (codes "bcc")) [
    | inl (_, e) ↦ bcc e
    | inr (n1, _) ↦ elim (str_eq_cases f.name (codes "resent-bcc")) [
      | inl (_, e) ↦ resent_bcc e
      | inr (n2, _) ↦ elim (str_eq_cases f.name (codes "return-path")) [
        | inl (_, e) ↦ return_path e
        | inr (n3, _) ↦ elim (str_eq_cases f.name (codes "date")) [
          | inl (d, e) ↦ elim has_date-cases [
            | inl (b, _) ↦ ground arith
            | inr (b, lacks) ↦ bad_date e (ground arith) lacks
          ]
          | inr (n4, _) ↦ elim (str_eq_cases f.name (codes "message-id")) [
            | inr (n5, _) ↦ ground arith
            | inl (d, e) ↦ elim has_id-cases [
              | inl (b, _) ↦ ground arith
              | inr (b, lacks) ↦ bad_id e (ground arith) lacks
            ]
          ]
        ]
      ]
    ]
  ]

  pub kept-Remains : (fs : List Field) → Remains fs (kept lib (stays lib fields) fs)
  unfolding kept
  kept-Remains [] = none_left
  kept-Remains (f ∷ fs) = elim (Bool-cases (stays lib fields f)) [
    | inl e ↦ rw (kept, e) (keeps (stays-not-LeftOut f e) (kept-Remains fs))
    | inr e ↦ rw (kept, e) (drops (not-stays-LeftOut f e) (kept-Remains fs))
  ]

-- A line is added where the condition holds.
abbrev pub Adds : Type 0 → Bytes → Bytes → Type 0
Adds Needed line out = (Needed × (out ≡ line ++ crlf)) ⊎ (¬ Needed × (out ≡ []))

abbrev pub Lacks : Bytes → List Field → Type 0
Lacks name fields = count_named name fields ≡ 0

-- The lines before the fields of the submission.
pub record Front (lib : Library) (opts : Options) (fields : List Field) (from body front : Bytes)
    : Type 0 where
  pub date_line : Bytes
  pub id_line : Bytes
  pub to_line : Bytes
  pub type_line : Bytes
  pub encoding_line : Bytes
  pub mime_line : Bytes
  pub lines :
      front
      ≡ received lib opts (identifier lib opts from)
        ++ (date_line ++ (id_line ++ (to_line ++ (type_line ++ (encoding_line ++ mime_line)))))
  pub date : Adds (¬ HasDate lib fields) (codes "Date: " ++ lib.now) date_line
  pub id : Adds (¬ HasId lib fields) (codes "Message-ID: " ++ identifier lib opts from) id_line
  pub to :
      Adds
        (Lacks (codes "to") fields × Lacks (codes "cc") fields)
        (codes "To: undisclosed-recipients:;")
        to_line
  pub content :
      Adds
        (Lacks (codes "content-type") fields
          × (has_high_bit body ≡ true)
          × (valid_utf8 body ≡ true))
        (codes "Content-Type: text/plain; charset=utf-8")
        type_line
  pub encoding :
      Adds
        (Lacks (codes "content-transfer-encoding") fields × (has_high_bit body ≡ true))
        (codes "Content-Transfer-Encoding: 8bit")
        encoding_line
  pub mime :
      Adds
        (Lacks (codes "mime-version") fields
          × ((has_high_bit body ≡ true) ⊎ ¬ Lacks (codes "content-type") fields))
        (codes "MIME-Version: 1.0")
        mime_line

line-Adds :
    (lib : Library) (Needed : Type 0) (b : Bool) (line : Bytes)
    → (b ≡ true → Needed)
    → (b ≡ false → ¬ Needed)
    → Adds Needed line (line_if lib b line)
unfolding line_if
line-Adds lib Needed true line needed unneeded = inl (needed refl, refl)
line-Adds lib Needed false line needed unneeded = inr (unneeded refl, refl)

not-present :
    (name : Bytes) (fields : List Field) → not (is_present name fields) ≡ true → Lacks name fields
not-present name fields h = ground arith

pub added-Front :
    (lib : Library) (opts : Options) (fields : List Field) (from body : Bytes)
    → Front lib opts fields from body (added lib opts fields from body)
unfolding added
added-Front lib opts fields from body = record {
  date_line = _;
  id_line = _;
  to_line = _;
  type_line = _;
  encoding_line = _;
  mime_line = _;
  lines = refl;
  date =
      line-Adds lib _ (not (has_date lib fields)) _
        (λ e. elim (has_date-cases lib fields) [ inl (b, _) ↦ ground arith | inr (_, n) ↦ n ])
        (λ e n. elim (has_date-cases lib fields) [ inl (_, h) ↦ n h | inr (b, _) ↦ ground arith ]);
  id =
      line-Adds lib _ (not (has_id lib fields)) _
        (λ e. elim (has_id-cases lib fields) [ inl (b, _) ↦ ground arith | inr (_, n) ↦ n ])
        (λ e n. elim (has_id-cases lib fields) [ inl (_, h) ↦ n h | inr (b, _) ↦ ground arith ]);
  to = line-Adds lib _ _ _ (λ e. (ground arith, ground arith)) (λ e (a, b). ground arith);
  content =
      line-Adds lib _ _ _ (λ e. (ground arith, ground arith, ground arith))
        (λ e (a, b, c). ground arith);
  encoding = line-Adds lib _ _ _ (λ e. (ground arith, ground arith)) (λ e (a, b). ground arith);
  mime =
      line-Adds lib _ _ _
        (λ e. (
          ground arith,
          elim (Bool-cases (has_high_bit body)) [ inl h ↦ inl h | inr h ↦ inr (λ l. ground arith) ],
        ))
        (λ e (a, b). elim b [
          | inl h ↦ ground arith
          | inr l ↦ elim (Bool-cases (is_present (codes "content-type") fields)) [
            | inl h ↦ ground arith
            | inr h ↦ l (ground arith)
          ]
        ]);
}
