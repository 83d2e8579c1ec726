-- ===== src/Session/Json/Lookups.antt =====
-- Reading an object after a field was set.
use tg_control_api_server.Prelude.{
  ◌≡◌, ◌≢◌, refl, sym, ◌∙◌, String, some, ◌is◌, is_iff, if◌then◌else◌, by_test, arith,
}
use tg_control_api_server.Session.Json.{Value, Fields, end, field, lookup, with_field}

pub lookup-with_field :
    (fs : Fields) (k j : String) (v : Value)
    → lookup (with_field fs k v) j ≡ (if k is j then some v else lookup fs j)
unfolding lookup with_field
lookup-with_field end k j v = refl
lookup-with_field (field i w fs) k j v =
    ground (arith, lookup-with_field fs k j v, is_iff i k, is_iff i j, is_iff k j)

pub lookup-with_field_other :
    (fs : Fields) (k j : String) (v : Value) → j ≢ k → lookup (with_field fs k v) j ≡ lookup fs j
lookup-with_field_other fs k j v n =
    lookup-with_field fs k j v
    ∙ by_test (λ o. o ≡ lookup fs j) (k is j) _ _ (λ e. absurd (n (sym ((is_iff k j).0 e))))
        (λ e. refl)
