-- ===== src/Json/Laws.antt =====
-- Laws of JSON dictionaries.
use langgraph_runtime_inmem.Prelude.{
  ◌≡◌, refl, none, some, String, ◌==◌, string_eq, if◌then◌else◌, arith, eq_iff,
}
use langgraph_runtime_inmem.Json.{Value, Fields, end, field, get, put, without}

pub get-put :
    (k j : String) (v : Value) (fs : Fields)
    → get j (put k v fs) ≡ (if k == j then some v else get j fs)
unfolding get put
get-put k j v end = refl
get-put k j v (field i w fs) = ground (arith, get-put k j v fs, eq_iff i k, eq_iff i j, eq_iff k j)

pub get-without :
    (k j : String) (fs : Fields) → get j (without k fs) ≡ (if k == j then none else get j fs)
unfolding get without
get-without k j end = ground arith
get-without k j (field i w fs) =
    ground (arith, get-without k j fs, eq_iff i k, eq_iff i j, eq_iff k j)
