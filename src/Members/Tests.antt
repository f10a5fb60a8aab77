-- ===== src/Members/Tests.antt =====
-- Runs of the use cases of apps/tcc/usecase/usecases/users.
use taunggyi_city_church.Common.{
  ℕ, ◌+◌, ◌≡◌, refl, true, false, Option, none, some, [], ◌∷◌, String, length, count,
}
use taunggyi_city_church.Common.Exec.{Exn, ok, raised}
use taunggyi_city_church.Common.Int.{ℤ, pos, eqb_ℤ}
use taunggyi_city_church.UseCase.Access.{Actor}
use taunggyi_city_church.UseCase.Errors.{validation_exception}
use taunggyi_city_church.UseCase.Crud.{number}
use taunggyi_city_church.Members.{Member, MemberRepository, Counts, bulk_delete, validate_delete}
use taunggyi_city_church.Members.Bulk.{
  Reads, barred, after_deletes, answers, is_deleted, is_kept, bulk_guarded,
}

abbrev member_of : ℤ → Member
member_of i = record { id = i; email = "a@b.mm"; is_superuser = some (eqb_ℤ i (pos 1)) }

-- Every id has a member; the state counts the deletions.
abbrev members : MemberRepository ℕ
members = record {
  get_by_id = λ i n. (ok (some (member_of i)), n);
  update = λ i changes n. (ok (some (member_of i)), n);
  delete = λ i user n. (ok true, n + 1);
}

abbrev members_read : Reads members
members_read = record { view = λ n i. some (member_of i); get_by_id_reads = λ i n. refl }

abbrev unread : String → Option ℤ
unread s = none

abbrev nine : Option Actor
nine = some (record {
  id = 9;
  is_active = none;
  is_authenticated = none;
  is_superuser = some false;
  role = none;
  get_permissions = none;
  department_id = none;
})

bulk_guarded_example :
    (barred members unread members_read (pos 2 ∷ pos 3 ∷ []) nine 0 ≡ true
      → (e : Exn) × (bulk_delete members unread (pos 2 ∷ pos 3 ∷ []) nine 0 ≡ (raised e, 0)))
    × (barred members unread members_read (pos 2 ∷ pos 3 ∷ []) nine 0 ≡ false
        → (c : Counts) × (bulk_delete members unread (pos 2 ∷ pos 3 ∷ []) nine 0
            ≡ (ok c, after_deletes members unread members_read (pos 2 ∷ pos 3 ∷ []) nine 0))
          × (c.deleted_count
              ≡ count is_deleted (answers members unread members_read (pos 2 ∷ pos 3 ∷ []) nine 0))
          × (c.failed
              ≡ count is_kept (answers members unread members_read (pos 2 ∷ pos 3 ∷ []) nine 0))
          × (c.deleted_count + c.failed ≡ length (pos 2 ∷ pos 3 ∷ [])))
bulk_guarded_example = bulk_guarded members unread members_read (pos 2 ∷ pos 3 ∷ []) nine 0

two_deleted :
    bulk_delete members unread (pos 2 ∷ pos 3 ∷ []) nine 0
    ≡ (ok (record { deleted_count = 2; failed = 0 }), 2)
unfolding bulk_delete
two_deleted = refl

protected_one : (bulk_delete members unread (pos 2 ∷ pos 1 ∷ []) nine 0).1 ≡ 0
unfolding bulk_delete
protected_one = refl

not_self : validate_delete members unread (number (pos 9)) nine 0 ≡ (
  raised (
      validation_exception "Cannot delete your own account" []
        (some "You cannot delete your own account.")),
  0,
)
unfolding validate_delete
not_self = refl
