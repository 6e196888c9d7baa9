-- ===== src/Templates/Kept.antt =====
-- internal/application/templates.go: what stays true of the templates table.
use event_driven_notificatio.Base.{
  ◌≡◌, refl, ◌⊎◌, inl, inr, Bool, true, false, not, [], ◌∷◌, map, some, Text, text_eq, text_eq→eq,
  text_eq_refl, is_empty, select, All, Bool-cases, arith,
}
use event_driven_notificatio.Conversion.{Uuid}
use event_driven_notificatio.Templates.{Engine}
use event_driven_notificatio.Templates.Rows.{
  Rows, TemplateRow, clash, any_row, same_id, overwritten, name_taken, insert_template,
  update_template, delete_row, channel_check,
}

-- No row shares its id or its name with another.
abbrev pub IsDistinct : Rows → Type 0
IsDistinct [] = Unit
IsDistinct (r ∷ rows) = All (λ q. clash r q ≡ false) rows × IsDistinct rows

-- The row holds what NewTemplate accepts: its body parses.
abbrev pub IsAccepted : Engine → TemplateRow → Type 0
IsAccepted g r =
    (is_empty r.name ≡ false)
    × (is_empty r.body ≡ false)
    × (channel_check r ≡ true)
    × (name : Text) × (tree : g.Tree) × (g.parse false name r.body ≡ some tree)

abbrev pub IsShelved : Engine → Rows → Type 0
IsShelved g rows = IsDistinct rows × All (IsAccepted g) rows

text_eq_sym : (t u : Text) → text_eq t u ≡ text_eq u t
unfolding text_eq
text_eq_sym [] [] = refl
text_eq_sym [] (d ∷ u) = refl
text_eq_sym (c ∷ t) [] = refl
text_eq_sym (c ∷ t) (d ∷ u) = ground (arith, text_eq_sym t u)

any_row-All :
    (test : TemplateRow → Bool) (rows : Rows)
    → any_row test rows ≡ false
    → All (λ q. test q ≡ false) rows
any_row-All test [] h = tt
any_row-All test (r ∷ rows) h = (ground arith, any_row-All test rows (ground arith))

select-All {κ} :
    (P : TemplateRow → Type κ) (test : TemplateRow → Bool) (rows : Rows)
    → All P rows
    → All P (select test rows)
select-All P test [] h = tt
select-All P test (r ∷ rows) h = elim (Bool-cases (test r)) [
  | inl t ↦ rw t (h.0, select-All P test rows h.1)
  | inr t ↦ rw t (select-All P test rows h.1)
]

select-IsDistinct :
    (test : TemplateRow → Bool) (rows : Rows) → IsDistinct rows → IsDistinct (select test rows)
select-IsDistinct test [] d = tt
select-IsDistinct test (r ∷ rows) d = elim (Bool-cases (test r)) [
  | inl t ↦
      rw t (select-All (λ q. clash r q ≡ false) test rows d.0, select-IsDistinct test rows d.1)
  | inr t ↦ rw t (select-IsDistinct test rows d.1)
]

text_eq_join : (t u v : Text) → text_eq t v ≡ true → text_eq u v ≡ true → text_eq t u ≡ true
text_eq_join t u v h k = rw (text_eq→eq t v h, text_eq→eq u v k) (text_eq_refl v)

overwritten-clash :
    (p : TemplateRow) (r q : TemplateRow)
    → name_taken p r ≡ false
    → name_taken p q ≡ false
    → clash r q ≡ false
    → clash (overwritten p r) (overwritten p q) ≡ false
overwritten-clash p r q h k c = elim (Bool-cases (same_id p.id r)) [
  | inl a ↦ elim (Bool-cases (same_id p.id q)) [
    | inl b ↦ absurd (ground (arith, text_eq_join r.id.bytes q.id.bytes p.id.bytes))
    | inr b ↦ ground (arith, text_eq_sym p.name q.name)
  ]
  | inr a ↦ ground arith
]

overwritten-All :
    (p : TemplateRow) (r : TemplateRow) (rows : Rows)
    → name_taken p r ≡ false
    → All (λ q. name_taken p q ≡ false) rows
    → All (λ q. clash r q ≡ false) rows
    → All (λ q. clash (overwritten p r) q ≡ false) (map (overwritten p) rows)
overwritten-All p r [] h k c = tt
overwritten-All p r (q ∷ rows) h k c =
    (overwritten-clash p r q h k.0 c.0, overwritten-All p r rows h k.1 c.1)

overwritten-IsDistinct :
    (p : TemplateRow) (rows : Rows)
    → All (λ q. name_taken p q ≡ false) rows
    → IsDistinct rows
    → IsDistinct (map (overwritten p) rows)
overwritten-IsDistinct p [] k d = tt
overwritten-IsDistinct p (r ∷ rows) k d =
    (overwritten-All p r rows k.0 k.1 d.0, overwritten-IsDistinct p rows k.1 d.1)

module _ (g : Engine) (p : TemplateRow) (fit : IsAccepted g p) where
  overwritten-IsAccepted :
      (rows : Rows) → All (IsAccepted g) rows → All (IsAccepted g) (map (overwritten p) rows)
  overwritten-IsAccepted [] a = tt
  overwritten-IsAccepted (r ∷ rows) a = elim (Bool-cases (same_id p.id r)) [
    | inl t ↦ rw t (fit, overwritten-IsAccepted rows a.1)
    | inr t ↦ rw t (a.0, overwritten-IsAccepted rows a.1)
  ]

  update_template_shape :
      (rows rows' : Rows)
      → update_template p rows ≡ some rows'
      → (rows' ≡ rows)
        ⊎ ((any_row (name_taken p) rows ≡ false) × (rows' ≡ map (overwritten p) rows))
  unfolding update_template
  update_template_shape rows rows' h = elim (Bool-cases (any_row (same_id p.id) rows)) [
    | inl a ↦ elim (Bool-cases (any_row (name_taken p) rows)) [
      | inl b ↦ absurd (ground arith)
      | inr b ↦ inr (b, ground arith)
    ]
    | inr a ↦ inl (ground arith)
  ]

  pub update_template-IsShelved :
      (rows rows' : Rows)
      → update_template p rows ≡ some rows'
      → IsShelved g rows
      → IsShelved g rows'
  update_template-IsShelved rows rows' h k = elim (update_template_shape rows rows' h) [
    | inl e ↦ rw e k
    | inr (u, e) ↦ rw e (
      overwritten-IsDistinct p rows (any_row-All (name_taken p) rows u) k.0,
      overwritten-IsAccepted rows k.1,
    )
  ]

  insert_template_shape :
      (rows rows' : Rows)
      → insert_template p rows ≡ some rows'
      → (any_row (clash p) rows ≡ false) × (rows' ≡ p ∷ rows)
  unfolding insert_template
  insert_template_shape rows rows' h = ground arith

  pub insert_template-IsShelved :
      (rows rows' : Rows)
      → insert_template p rows ≡ some rows'
      → IsShelved g rows
      → IsShelved g rows'
  insert_template-IsShelved rows rows' h k =
      let (u, e) = insert_template_shape rows rows' h in
      rw e ((any_row-All (clash p) rows u, k.0), (fit, k.1))

pub delete_row-IsShelved :
    (g : Engine) (id : Uuid) (rows : Rows) → IsShelved g rows → IsShelved g (delete_row id rows)
unfolding delete_row
delete_row-IsShelved g id rows k = (
  select-IsDistinct (λ r. not (same_id id r)) rows k.0,
  select-All (IsAccepted g) (λ r. not (same_id id r)) rows k.1,
)
