-- ===== src/Verify/Reports.antt =====
-- crates/gc-core/src/verify.rs: what a verification reports. A path is the list of its steps, a
-- violation its data; how they are printed is left out.
use Prim.Native.String.{String}
use gc_united.Base.{ℕ, suc, Bool, ◌&&◌, if◌then◌else◌, ltb, leb, ◌==◌, List, [], ◌∷◌, ◌++◌, length}
use gc_united.Heap.{Handle}

pub data Origin : Type 0 where
  root_slot : ℕ → Origin
  in_global : String → Origin
  in_field : (parent index : ℕ) → Origin

-- What `path_to` renders, or why there is no path.
pub data Route : Type 0 where
  steps : List Origin → Route
  no_path : Route
  not_computed : Route

pub data Violation : Type 0 where
  out_of_bounds : Origin → Handle → Violation
  corrupt_payload : Origin → Handle → (found : ℕ) → Violation
  unknown_identity : Origin → Handle → (id : ℕ) → Violation
  duplicated_identity : (id : ℕ) → List Handle → Violation
  wrong_object : Origin → Handle → (expected found : ℕ) → Violation
  null_mismatch : Origin → (expected_null : Bool) → Violation
  shape_mismatch : (id : ℕ) → Handle → (expected found : ℕ) → Violation
  unreachable : (id : ℕ) → Route → Violation
  root_stack_depth : (collector model : ℕ) → Violation
  missing_global : String → Violation
  accounting : (used reachable : ℕ) → Violation

abbrev pub max_violations : ℕ
max_violations = 64

abbrev pub max_paths : ℕ
max_paths = 8

pub record Report : Type 0 where
  pub violations : List Violation
  pub omitted : ℕ
  pub visited : ℕ

abbrev pub empty_report : Report
empty_report = record { violations = []; omitted = 0; visited = 0 }

-- `Report::ok`
unfoldable pub is_ok : Report → Bool
is_ok r = (length r.violations == 0) && (r.omitted == 0)

unfoldable pub note : Report → Violation → Report
note r v =
    if ltb (length r.violations) max_violations
    then record r { violations = r.violations ++ v ∷ [] }
    else record r { omitted = suc r.omitted }

unfoldable pub is_full : Report → Bool
is_full r = leb max_violations (length r.violations)
