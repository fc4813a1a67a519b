-- ===== src/Runtime/Store/Revisions.antt =====
-- internal/runtime/repository/memory.go: the revisions of a spec, and the operations on it.
use devflow_service.Base.{
  Bool, List, Option, [], find, if◌then◌else◌, leb, length, none, put, some, sort_by, ℕ, ℕ-Key,
  ◌++◌, ◌+◌, ◌==◌, ◌∷◌,
}
use devflow_service.Runtime.Store.{MemoryStore, or_empty, row_or_missing}
use devflow_service.Runtime.Types.{RuntimeOperation, RuntimeSpecRevision}
use devflow_service.Service.World.{Result}
use devflow_service.Text.Laws.{Text-Key}

unfoldable pub revisions_of : ℕ → MemoryStore → List RuntimeSpecRevision
revisions_of id s = or_empty (find id s.runtime_spec_revisions)

-- `NextRevisionNumber`.
unfoldable pub next_revision_number : ℕ → MemoryStore → ℕ
unfolding revisions_of
next_revision_number id s = length (revisions_of id s) + 1

-- `CreateRuntimeSpecRevision`.
unfoldable pub create_runtime_spec_revision : Option RuntimeSpecRevision → MemoryStore → MemoryStore
unfolding revisions_of
create_runtime_spec_revision none s = s
create_runtime_spec_revision (some r) s = record s {
  runtime_spec_revisions =
      put r.runtime_spec_id (revisions_of r.runtime_spec_id s ++ r ∷ []) s.runtime_spec_revisions;
}

abbrev pub by_revision : RuntimeSpecRevision → RuntimeSpecRevision → Bool
by_revision a b = leb a.revision b.revision

-- `ListRuntimeSpecRevisions`.
unfoldable pub list_runtime_spec_revisions : ℕ → MemoryStore → List RuntimeSpecRevision
unfolding revisions_of sort_by
list_runtime_spec_revisions id s = sort_by by_revision (revisions_of id s)

unfoldable pub revision_among : ℕ → List RuntimeSpecRevision → Option RuntimeSpecRevision
revision_among id [] = none
revision_among id (r ∷ revisions) = if r.id == id then some r else revision_among id revisions

abbrev first_of :
    Option RuntimeSpecRevision → Option RuntimeSpecRevision → Option RuntimeSpecRevision
first_of none rest = rest
first_of (some r) rest = some r

unfoldable pub revision_in : ℕ → List (ℕ × List RuntimeSpecRevision) → Option RuntimeSpecRevision
unfolding revision_among
revision_in id [] = none
revision_in id (e ∷ groups) = first_of (revision_among id e.1) (revision_in id groups)

-- `GetRuntimeSpecRevision`.
unfoldable pub get_runtime_spec_revision : ℕ → MemoryStore → Result RuntimeSpecRevision
unfolding revision_in
get_runtime_spec_revision id s = row_or_missing (revision_in id s.runtime_spec_revisions)

unfoldable pub operations_of : ℕ → MemoryStore → List RuntimeOperation
operations_of id s = or_empty (find id s.runtime_operations)

-- `CreateRuntimeOperation`.
unfoldable pub create_runtime_operation : Option RuntimeOperation → MemoryStore → MemoryStore
unfolding operations_of
create_runtime_operation none s = s
create_runtime_operation (some op) s = record s {
  runtime_operations =
      put op.runtime_spec_id (operations_of op.runtime_spec_id s ++ op ∷ []) s.runtime_operations;
}

abbrev pub newest_first : RuntimeOperation → RuntimeOperation → Bool
newest_first a b = leb b.created_at a.created_at

-- `ListRuntimeOperations`.
unfoldable pub list_runtime_operations : ℕ → MemoryStore → List RuntimeOperation
unfolding operations_of sort_by
list_runtime_operations id s = sort_by newest_first (operations_of id s)
