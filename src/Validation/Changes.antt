-- ===== src/Validation/Changes.antt =====
-- The calls that change the context of apps/core/core_validators/valdiaiton_context.py.
use taunggyi_city_church.Common.{
  ◌≡◌, refl, sym, subst, ◌∙◌, ap, false, ◌||◌, ◌&&◌, List, [], ◌∷◌, String, arith, str_eq, eq_iff,
  if◌then◌else◌, Bool-cases, inl, inr,
}
use taunggyi_city_church.Common.Dict.{Dict, lookup}
use taunggyi_city_church.Validation.{
  ValidationContext, has, append_new, errors_of, merge_errors, add_error, add_warning, add_warnings,
  set_context, clear, new_context, merge,
}
use taunggyi_city_church.Validation.Merge.{
  IsDict, IsWell, append_new-IsDistinct, insert-IsWell, merge_errors-IsWell, has-append_new,
  has-merge_errors, errors_of-insert,
}

added_at :
    (m field at message : String) (errors : Dict (List String))
    → has m (
        if str_eq field at
        then append_new message (errors_of field errors)
        else errors_of at errors)
      ≡ (has m (errors_of at errors) || (str_eq field at && str_eq message m))
added_at m field at message errors = elim (Bool-cases (str_eq field at)) [
  | inl same ↦ rw same (
      has-append_new m message (errors_of field errors)
      ∙ ap (λ k. has m (errors_of k errors) || str_eq message m) ((eq_iff field at).0 same))
  | inr apart ↦ rw apart (ground arith)
]

module _ {V : Type 0} where
  warned : (ws : List String) (c : ValidationContext V) → (add_warnings ws c).errors ≡ c.errors
  unfolding add_warning
  warned [] c = refl
  warned (w ∷ ws) c =
      warned ws (add_warning w c)
      ∙ elim (Bool-cases (str_eq w "")) [ inl blank ↦ rw blank refl | inr word ↦ rw word refl ]

  merge-errors :
      (other c : ValidationContext V) → (merge other c).errors ≡ merge_errors other.errors c.errors
  unfolding merge
  merge-errors other c =
      warned other.warnings (record c { errors = merge_errors other.errors c.errors })

  -- the calls that change a context
  pub data Change : ValidationContext V → ValidationContext V → Type 0 where
    error :
        (field message : String) (c : ValidationContext V) → Change c (add_error field message c)
    warning : (message : String) (c : ValidationContext V) → Change c (add_warning message c)
    note : (key : String) (value : V) (c : ValidationContext V) → Change c (set_context key value c)
    merged : (other c : ValidationContext V) → Change c (merge other c)
    cleared : (c : ValidationContext V) → Change c (clear c)

  pub data Reach (c : ValidationContext V) : ValidationContext V → Type 0 where
    here : Reach c c
    next : {d e : ValidationContext V} → Reach c d → Change d e → Reach c e

  add_error-IsWell :
      (field message : String) (c : ValidationContext V)
      → IsWell c.errors
      → IsWell (add_error field message c).errors
  unfolding add_error
  add_error-IsWell field message c h = elim (Bool-cases (str_eq field "" || str_eq message "")) [
    | inl blank ↦ rw blank h
    | inr words ↦ rw words (
        insert-IsWell field (append_new message (errors_of field c.errors)) c.errors
          (append_new-IsDistinct message (errors_of field c.errors) (h.distinct field)) h)
  ]

  Change-IsWell : {c d : ValidationContext V} → Change c d → IsWell c.errors → IsWell d.errors
  unfolding clear set_context lookup
  Change-IsWell (error field message c) h = add_error-IsWell field message c h
  Change-IsWell (warning message c) h = subst IsWell (sym (warned (message ∷ []) c)) h
  Change-IsWell (note key value c) h = h
  Change-IsWell (merged other c) h =
      subst IsWell (sym (merge-errors other c)) (merge_errors-IsWell other.errors c.errors h)
  Change-IsWell (cleared c) h = record { is_dict = tt; distinct = λ field m. omega arith }

  -- Whatever is added to, merged into or cleared from a new context, its errors are a dict and no
  -- field has a message twice.
  pub Reach-IsWell : {c : ValidationContext V} → Reach (new_context {V = V}) c → IsWell c.errors
  unfolding lookup
  Reach-IsWell here = record { is_dict = tt; distinct = λ field m. omega arith }
  Reach-IsWell (next r change) = Change-IsWell change (Reach-IsWell r)

  -- An error that is added with its field and message not empty is there, and no other error comes
  -- or goes. After a merge, a message stands for a field exactly if it stood for it before or in the
  -- other context, whose errors are a dict.
  pub merge_unites :
      (field message at m : String) (other c : ValidationContext V)
      → str_eq field "" ≡ false
      → str_eq message "" ≡ false
      → IsDict other.errors
      → (has m (errors_of at (add_error field message c).errors)
          ≡ (has m (errors_of at c.errors) || (str_eq field at && str_eq message m)))
        × (has m (errors_of at (merge other c).errors)
            ≡ (has m (errors_of at c.errors) || has m (errors_of at other.errors)))
  unfolding add_error
  merge_unites field message at m other c named worded h =
      let added = append_new message (errors_of field c.errors) in
      (
        rw (named, worded)
            (ap (has m) (errors_of-insert field at added c.errors)
              ∙ added_at m field at message c.errors),
        ap (λ errors. has m (errors_of at errors)) (merge-errors other c)
            ∙ has-merge_errors m at other.errors c.errors h,
      )
