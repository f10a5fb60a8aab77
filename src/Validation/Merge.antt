-- ===== src/Validation/Merge.antt =====
-- The errors of the context of apps/core/core_validators/valdiaiton_context.py.
use taunggyi_city_church.Common.{
  ◌+◌, ◌≤◌, ◌≡◌, refl, sym, subst, ◌∙◌, ap, Bool, true, false, ◌||◌, Option, none, some, List, [],
  ◌∷◌, ◌++◌, String, arith, str_eq, eq_iff, or_else, count, if◌then◌else◌, Bool-cases, inl, inr,
}
use taunggyi_city_church.Common.Dict.{Dict, lookup, insert, lookup-insert}
use taunggyi_city_church.Validation.{has, append_new, extend_new, errors_of, merge_errors}

-- A dict has each key once.
abbrev pub IsDict : {V : Type 0} → Dict V → Type 0
IsDict [] = Unit
IsDict ((key, value) ∷ rest) = (lookup key rest ≡ none) × IsDict rest

-- No message stands twice.
abbrev pub IsDistinct : List String → Type 0
IsDistinct messages = (m : String) → count (λ x. str_eq x m) messages ≤ 1

has-append : (m : String) (xs ys : List String) → has m (xs ++ ys) ≡ (has m xs || has m ys)
has-append m [] ys = refl
has-append m (x ∷ xs) ys = ground (arith, has-append m xs ys)

pub has-append_new :
    (m n : String) (xs : List String) → has m (append_new n xs) ≡ (has m xs || str_eq n m)
has-append_new m n xs = elim (Bool-cases (has n xs)) [
  | inl there ↦ ground (arith, there, eq_iff n m)
  | inr new ↦ ground (arith, new, has-append m xs (n ∷ []))
]

has-extend_new :
    (m : String) (ns xs : List String) → has m (extend_new ns xs) ≡ (has m xs || has m ns)
unfolding extend_new
has-extend_new m [] xs = ground arith
has-extend_new m (n ∷ ns) xs =
    ground (arith, has-extend_new m ns (append_new n xs), has-append_new m n xs)

pub errors_of-insert :
    (field other : String) (messages : List String) (errors : Dict (List String))
    → errors_of other (insert field messages errors)
      ≡ (if str_eq field other then messages else errors_of other errors)
errors_of-insert field other messages errors =
    ground (arith, lookup-insert field other messages errors)

own_field :
    (m : String) (b : Bool) (field : String) (messages : List String)
    (rest errors : Dict (List String)) (now : List String)
    → b ≡ true
    → has m now ≡ (has m (errors_of field errors) || has m messages)
    → lookup field rest ≡ none
    → (has m now || has m (errors_of field rest)) ≡ (
        has m (errors_of field errors)
        || has m (or_else (if b then some messages else lookup field rest) []))
own_field m b field messages rest errors now same h missing = rw (same, missing, h) (ground arith)

other_field :
    (m : String) (b : Bool) (field : String) (messages : List String)
    (rest errors : Dict (List String)) (now : List String)
    → b ≡ false
    → has m now ≡ has m (errors_of field errors)
    → (has m now || has m (errors_of field rest)) ≡ (
        has m (errors_of field errors)
        || has m (or_else (if b then some messages else lookup field rest) []))
other_field m b field messages rest errors now apart h = rw (apart, h) refl

pub has-merge_errors :
    (m field : String) (others errors : Dict (List String))
    → IsDict others
    → has m (errors_of field (merge_errors others errors))
      ≡ (has m (errors_of field errors) || has m (errors_of field others))
unfolding merge_errors lookup
has-merge_errors m field [] errors h = ground arith
has-merge_errors m field ((f, messages) ∷ rest) errors h =
    let merged = extend_new messages (errors_of f errors) in
    let rest_lem = has-merge_errors m field rest (insert f merged errors) h.1 in
    let read = ap (has m) (errors_of-insert f field merged errors) in
    elim (Bool-cases (str_eq f field)) [
      | inl same ↦
          let e = (eq_iff f field).0 same in
          rest_lem
          ∙ own_field m (str_eq f field) field messages rest errors
              (errors_of field (insert f merged errors)) same
              (read
                ∙ ap (λ b. has m (if b then merged else errors_of field errors)) same
                ∙ has-extend_new m messages (errors_of f errors)
                ∙ ap (λ k. has m (errors_of k errors) || has m messages) e)
              (subst (λ k. lookup k rest ≡ none) e h.0)
      | inr apart ↦
          rest_lem
          ∙ other_field m (str_eq f field) field messages rest errors
              (errors_of field (insert f merged errors)) apart
              (read ∙ ap (λ b. has m (if b then merged else errors_of field errors)) apart)
    ]

count-one :
    (n : String) (xs : List String)
    → (m : String)
    → count (λ x. str_eq x m) (xs ++ n ∷ [])
      ≡ count (λ x. str_eq x m) xs + (if str_eq n m then 1 else 0)
count-one n [] m = ground arith
count-one n (x ∷ xs) m = ground (arith, count-one n xs m)

missing-count : (m : String) (xs : List String) → has m xs ≡ false → count (λ x. str_eq x m) xs ≡ 0
missing-count m [] h = refl
missing-count m (x ∷ xs) h = ground (arith, h, missing-count m xs (ground (arith, h)))

pub append_new-IsDistinct :
    (n : String) (xs : List String) → IsDistinct xs → IsDistinct (append_new n xs)
append_new-IsDistinct n xs h m = elim (Bool-cases (has n xs)) [
  | inl there ↦ rw there (h m)
  | inr new ↦ rw new (ground (arith, count-one n xs m, h m, eq_iff n m, missing-count n xs new))
]

extend_new-IsDistinct : (ns xs : List String) → IsDistinct xs → IsDistinct (extend_new ns xs)
unfolding extend_new
extend_new-IsDistinct [] xs h = h
extend_new-IsDistinct (n ∷ ns) xs h =
    extend_new-IsDistinct ns (append_new n xs) (append_new-IsDistinct n xs h)

insert-IsDict :
    {V : Type 0} (key : String) (value : V) (d : Dict V) → IsDict d → IsDict (insert key value d)
unfolding insert lookup
insert-IsDict key value [] h = (refl, tt)
insert-IsDict key value ((j, w) ∷ d) h = elim (Bool-cases (str_eq j key)) [
  | inl same ↦ rw same (h.0, h.1)
  | inr apart ↦ rw apart (
    lookup-insert key j value d
        ∙ unset (str_eq key j) value (lookup j d) (other_way j key apart) h.0,
    insert-IsDict key value d h.1,
  )
]
  where
    other_way : (a b : String) → str_eq a b ≡ false → str_eq b a ≡ false
    other_way a b h = ground (arith, h, eq_iff a b, eq_iff b a)

    unset :
        {V : Type 0} (b : Bool) (v : V) (o : Option V)
        → b ≡ false
        → o ≡ none
        → (if b then some v else o) ≡ none
    unset b v o apart missing = rw (apart, missing) refl

-- The errors are a dict, and no field has a message twice.
pub record IsWell (errors : Dict (List String)) : Type 0 where
  pub is_dict : IsDict errors
  pub distinct : (field : String) → IsDistinct (errors_of field errors)

either-IsDistinct :
    (b : Bool) (xs ys : List String)
    → IsDistinct xs
    → IsDistinct ys
    → IsDistinct (if b then xs else ys)
either-IsDistinct true xs ys h k = h
either-IsDistinct false xs ys h k = k

pub insert-IsWell :
    (field : String) (messages : List String) (errors : Dict (List String))
    → IsDistinct messages
    → IsWell errors
    → IsWell (insert field messages errors)
insert-IsWell field messages errors h well = record {
  is_dict = insert-IsDict field messages errors well.is_dict;
  distinct = λ other. subst IsDistinct (sym (errors_of-insert field other messages errors)) (
      either-IsDistinct (str_eq field other) messages (errors_of other errors) h
        (well.distinct other));
}

pub merge_errors-IsWell :
    (others errors : Dict (List String)) → IsWell errors → IsWell (merge_errors others errors)
unfolding merge_errors
merge_errors-IsWell [] errors h = h
merge_errors-IsWell ((f, messages) ∷ rest) errors h =
    merge_errors-IsWell rest (insert f (extend_new messages (errors_of f errors)) errors) (
      insert-IsWell f (extend_new messages (errors_of f errors)) errors
        (extend_new-IsDistinct messages (errors_of f errors) (h.distinct f)) h)
