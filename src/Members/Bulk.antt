-- ===== src/Members/Bulk.antt =====
-- `BulkDeleteUsersUseCase` of apps/tcc/usecase/usecases/users/user_delete_uc.py.
use taunggyi_city_church.Common.{
  ◌+◌, ◌≡◌, refl, ap, Bool, true, false, ◌||◌, Option, List, [], ◌∷◌, arith, ltb, length, any,
  is_empty, Bool-cases, inl, inr, String, not, ◌&&◌, none, some, count, or_else, if◌then◌else◌, ◌∙◌,
}
use taunggyi_city_church.Common.Exec.{Outcome, Exn, ok, raised}
use taunggyi_city_church.Common.Int.{ℤ}
use taunggyi_city_church.UseCase.Access.{Actor}
use taunggyi_city_church.Members.{
  Member, MemberRepository, Counts, counted, is_own, is_protected, check_ids, check_each,
  delete_each, bulk_delete, no_ids, too_many_ids, own_id, super_admin_id,
}
use taunggyi_city_church.Common.Int.{pos, eqb_ℤ}

-- `get_by_id` answers, and reading changes nothing.
pub record Reads {S : Type 0} (repository : MemberRepository S) : Type 0 where
  pub view : S → ℤ → Option Member
  pub get_by_id_reads : (i : ℤ) (s : S) → repository.get_by_id i s ≡ (ok (view s i), s)

-- the flag of a super admin, given and true
abbrev pub is_admin : Option Bool → Bool
is_admin (some true) = true
is_admin _ = false

abbrev pub admin_member : Option Member → Bool
admin_member none = false
admin_member (some m) = is_admin m.is_superuser

abbrev pub admin_actor : Option Actor → Bool
admin_actor none = false
admin_actor (some u) = is_admin u.is_superuser

-- a super admin, for a user who is none
abbrev pub off_limits : Option Actor → Option Member → Bool
off_limits user m = admin_member m && not (admin_actor user)

-- the id of the acting user
abbrev pub names_self : Option Actor → ℤ → Bool
names_self none i = false
names_self (some u) i = eqb_ℤ (pos u.id) i

-- an answer that says that the user is deleted
abbrev pub is_deleted : Outcome Bool → Bool
is_deleted (ok true) = true
is_deleted _ = false

abbrev pub is_kept : Outcome Bool → Bool
is_kept r = not (is_deleted r)

is_admin_lem : (flag : Option Bool) → or_else flag false ≡ is_admin flag
is_admin_lem none = refl
is_admin_lem (some true) = refl
is_admin_lem (some false) = refl

protected_lem : (user : Option Actor) (m : Option Member) → is_protected user m ≡ off_limits user m
protected_lem user none = refl
protected_lem none (some m) = rw (is_admin_lem m.is_superuser) refl
protected_lem (some u) (some m) = rw (is_admin_lem m.is_superuser, is_admin_lem u.is_superuser) refl

own_lem : (user : Option Actor) (i : ℤ) → is_own user i ≡ names_self user i
own_lem none i = refl
own_lem (some u) i = refl

any_own_lem :
    (user : Option Actor) (ids : List ℤ) → any (is_own user) ids ≡ any (names_self user) ids
any_own_lem user [] = refl
any_own_lem user (i ∷ rest) = rw (own_lem user i, any_own_lem user rest) refl

counted_lem :
    (r : Outcome Bool) (c : Counts)
    → ((counted r c).deleted_count ≡ c.deleted_count + (if is_deleted r then 1 else 0))
      × ((counted r c).failed ≡ c.failed + (if is_deleted r then 0 else 1))
counted_lem (ok true) c = (refl, omega arith)
counted_lem (ok false) c = (omega arith, refl)
counted_lem (raised e) c = (omega arith, refl)

module _ {S : Type 0} (repository : MemberRepository S) (read_int : String → Option ℤ)
    (reads : Reads repository) where
  -- the state after `delete` of the repository was called for each id in turn
  abbrev pub after_deletes : List ℤ → Option Actor → S → S
  after_deletes [] user s = s
  after_deletes (i ∷ rest) user s = after_deletes rest user (repository.delete i user s).1

  abbrev pub some_protected : List ℤ → Option Actor → S → Bool
  some_protected ids user s = any (λ i. off_limits user (reads.view s i)) ids

  check_each_passes :
      (ids : List ℤ) (user : Option Actor) (s : S)
      → some_protected ids user s ≡ false
      → check_each repository read_int ids user s ≡ (ok tt, s)
  unfolding check_each
  check_each_passes [] user s h = refl
  check_each_passes (i ∷ rest) user s h =
      let bare : is_protected user (reads.view s i) ≡ false =
        protected_lem user (reads.view s i) ∙ ground (arith, h) in
      let later : some_protected rest user s ≡ false = ground (arith, h) in
      rw (reads.get_by_id_reads i s, bare) (check_each_passes rest user s later)

  check_each_stops :
      (ids : List ℤ) (user : Option Actor) (s : S)
      → some_protected ids user s ≡ true
      → (e : Exn) × (check_each repository read_int ids user s ≡ (raised e, s))
  unfolding check_each
  check_each_stops [] user s h = absurd (ground (arith, h))
  check_each_stops (i ∷ rest) user s h = elim (Bool-cases (off_limits user (reads.view s i))) [
    | inl barred ↦
        let stopped = protected_lem user (reads.view s i) ∙ barred in
        (super_admin_id, rw (reads.get_by_id_reads i s, stopped) refl)
    | inr bare ↦
        let passed = protected_lem user (reads.view s i) ∙ bare in
        let (e, stops) = check_each_stops rest user s (ground (arith, h, bare)) in
        (e, rw (reads.get_by_id_reads i s, passed) stops)
  ]

  -- what `delete` of the repository answered for each id in turn
  abbrev pub answers : List ℤ → Option Actor → S → List (Outcome Bool)
  answers [] user s = []
  answers (i ∷ rest) user s = let (r, s') = repository.delete i user s in r ∷ answers rest user s'

  delete_each_counts :
      (ids : List ℤ) (user : Option Actor) (c : Counts) (s : S)
      → let (c', s') = delete_each repository read_int ids user c s in
        (c'.deleted_count ≡ c.deleted_count + count is_deleted (answers ids user s))
        × (c'.failed ≡ c.failed + count is_kept (answers ids user s))
        × (s' ≡ after_deletes ids user s)
  unfolding delete_each
  delete_each_counts [] user c s = (omega arith, omega arith, refl)
  delete_each_counts (i ∷ rest) user c s =
      let r = (repository.delete i user s).0 in
      let (d, f, state) =
        delete_each_counts rest user (counted r c) (repository.delete i user s).1 in
      let (d1, f1) = counted_lem r c in (ground (arith, d, d1), ground (arith, f, f1), state)

  answered :
      (ids : List ℤ) (user : Option Actor) (s : S)
      → count is_deleted (answers ids user s) + count is_kept (answers ids user s) ≡ length ids
  answered [] user s = omega arith
  answered (i ∷ rest) user s = ground (arith, answered rest user (repository.delete i user s).1)

  -- the guards that read nothing
  abbrev pub bad_ids : List ℤ → Option Actor → Bool
  bad_ids ids user = is_empty ids || (ltb 100 (length ids) || any (names_self user) ids)

  check_ids_stops :
      (ids : List ℤ) (user : Option Actor) (s : S)
      → bad_ids ids user ≡ true
      → (e : Exn) × (check_ids repository read_int ids user s ≡ (raised e, s))
  unfolding check_ids
  check_ids_stops ids user s h = elim (Bool-cases (is_empty ids)) [
    | inl nothing ↦ (no_ids, rw nothing refl)
    | inr given ↦ elim (Bool-cases (ltb 100 (length ids))) [
      | inl many ↦ (too_many_ids, rw (given, many) refl)
      | inr few ↦
          let own : any (is_own user) ids ≡ true =
            any_own_lem user ids ∙ ground (arith, h, given, few) in
          (own_id, rw (given, few, own) refl)
    ]
  ]

  check_ids_passes :
      (ids : List ℤ) (user : Option Actor) (s : S)
      → bad_ids ids user ≡ false
      → check_ids repository read_int ids user s ≡ (ok tt, s)
  unfolding check_ids
  check_ids_passes ids user s h =
      let given : is_empty ids ≡ false = ground (arith, h) in
      let few : ltb 100 (length ids) ≡ false = ground (arith, h) in
      let other : any (is_own user) ids ≡ false = any_own_lem user ids ∙ ground (arith, h) in
      rw (given, few, other) refl

  abbrev pub barred : List ℤ → Option Actor → S → Bool
  barred ids user s = bad_ids ids user || some_protected ids user s

  bulk_barred :
      (ids : List ℤ) (user : Option Actor) (s : S)
      → barred ids user s ≡ true
      → (e : Exn) × (bulk_delete repository read_int ids user s ≡ (raised e, s))
  unfolding bulk_delete
  bulk_barred ids user s h = elim (Bool-cases (bad_ids ids user)) [
    | inl bad ↦ let (e, stops) = check_ids_stops ids user s bad in (e, rw stops refl)
    | inr good ↦
        let (e, stops) = check_each_stops ids user s (ground (arith, h, good)) in
        (e, rw (check_ids_passes ids user s good, stops) refl)
  ]

  bulk_passes :
      (ids : List ℤ) (user : Option Actor) (s : S)
      → barred ids user s ≡ false
      → (c : Counts) × (bulk_delete repository read_int ids user s
          ≡ (ok c, after_deletes ids user s))
        × (c.deleted_count ≡ count is_deleted (answers ids user s))
        × (c.failed ≡ count is_kept (answers ids user s))
        × (c.deleted_count + c.failed ≡ length ids)
  unfolding bulk_delete
  bulk_passes ids user s h =
      let none_yet : Counts = record { deleted_count = 0; failed = 0 } in
      let c = (delete_each repository read_int ids user none_yet s).0 in
      let (d, f, state) = delete_each_counts ids user none_yet s in
      let good : bad_ids ids user ≡ false = ground (arith, h) in
      let bare : some_protected ids user s ≡ false = ground (arith, h) in
      (
        c,
        rw (check_ids_passes ids user s good, check_each_passes ids user s bare)
            (ap (λ s'. (ok c, s')) state),
        omega (arith, d),
        omega (arith, f),
        omega (arith, d, f, answered ids user s),
      )

  -- Over a repository whose reads answer and change nothing: a bulk deletion of no ids, of more than 100,
  -- of the id of the acting user, or of a super admin by someone who is none, raises and deletes
  -- nobody. Any other one calls delete once for each id, in their order, whatever the calls answer or
  -- raise. Its deleted_count is the number of calls that answered true, and its failed that of all others;
  -- each id is counted once.
  pub bulk_guarded :
      (ids : List ℤ) (user : Option Actor) (s : S)
      → (barred ids user s ≡ true
          → (e : Exn) × (bulk_delete repository read_int ids user s ≡ (raised e, s)))
        × (barred ids user s ≡ false
            → (c : Counts) × (bulk_delete repository read_int ids user s
                ≡ (ok c, after_deletes ids user s))
              × (c.deleted_count ≡ count is_deleted (answers ids user s))
              × (c.failed ≡ count is_kept (answers ids user s))
              × (c.deleted_count + c.failed ≡ length ids))
  bulk_guarded ids user s = (bulk_barred ids user s, bulk_passes ids user s)
