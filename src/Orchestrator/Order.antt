-- ===== src/Orchestrator/Order.antt =====
-- The dispatch order of internal/orchestrator/orchestrator.go.
pub mod Laws
use my_symphony.Base.{Bool, not, if◌then◌else◌, List, Option, none, some, ℤ, pos, eqb_ℤ, ltb_ℤ}
use my_symphony.Go.Int64.{max_int, wrap}
use my_symphony.Go.Utf8.{text_lt}
use my_symphony.Go.Sort.{slice_stable}
use my_symphony.Domain.{Issue}

-- priorityKey.
unfoldable pub priority_key : Option ℤ → ℤ
priority_key none = pos max_int
priority_key (some p) = p

-- createdKey: UnixNano keeps the low 64 bits.
unfoldable pub created_key : Option ℤ → ℤ
created_key none = pos max_int
created_key (some t) = wrap t

-- The `less` function of sortForDispatch.
unfoldable pub dispatch_less : Issue → Issue → Bool
dispatch_less a b =
    let pa = priority_key a.priority in
    let pb = priority_key b.priority in
    let ca = created_key a.created_at in
    let cb = created_key b.created_at in
    if not (eqb_ℤ pa pb)
    then ltb_ℤ pa pb
    else if not (eqb_ℤ ca cb)
    then ltb_ℤ ca cb
    else text_lt a.identifier b.identifier

-- sortForDispatch.
unfoldable pub sort_for_dispatch : List Issue → List Issue
sort_for_dispatch issues = slice_stable dispatch_less issues
