-- ===== src/Dag/Spec.antt =====
-- The nodes of a workflow definition (`TaskSpec` of app/dag.py), the errors that the module raises,
-- and the raw definition as a JSON value.
use auto_bot.Prelude.{ℕ, String, List, Option, none, some, ◌≡◌, refl, Bool, ◌⊎◌, inl, inr}
use auto_bot.Prelude.Int.{ℤ}

pub record TaskSpec : Type 0 where
  pub id : String
  pub depends_on : List String
  pub max_retries : Option ℕ

-- The messages of `DagValidationError`, with the parts that they quote. A dictionary that is asked
-- for a missing key raises `KeyError`, an empty iterator `StopIteration`, a list that is too short
-- `IndexError`; `out_of_fuel` stands for a loop that was cut off.
pub data DagError : Type 0 where
  workflow_not_list : DagError
  node_not_object bad_id bad_depends_on bad_max_retries : ℕ → DagError
  duplicate_id self_dependency : String → DagError
  unknown_dependency : String → String → DagError
  cycle : List String → DagError
  key_error : String → DagError
  stop_iteration index_error : DagError
  out_of_fuel : DagError

pub data Result {ℓ} (A : Type ℓ) : Type ℓ where
  ok : A → Result A
  err : DagError → Result A

infixl 5 ◌>>=◌
abbrev pub ◌>>=◌ {ℓ κ} : {B : Type κ} {A : Type ℓ} → Result A → (A → Result B) → Result B
err fault >>= next = err fault
ok found >>= next = next found

-- d[k]: a missing key raises `KeyError`.
abbrev pub or_key_error {ℓ} : {A : Type ℓ} → String → Option A → Result A
or_key_error k none = err (key_error k)
or_key_error k (some a) = ok a

module _ {ℓ κ} {B : Type κ} {A : Type ℓ} (next : A → Result B) where
  pub >>=-eq-ok :
      (r : Result A) {b : B} → r >>= next ≡ ok b → (a : A) × (r ≡ ok a) × (next a ≡ ok b)
  >>=-eq-ok (err fault) returned = cc
  >>=-eq-ok (ok found) returned = (found, refl, returned)

  pub >>=-eq-err :
      (r : Result A) {e : DagError}
      → r >>= next ≡ err e
      → (r ≡ err e) ⊎ ((a : A) × (r ≡ ok a) × (next a ≡ err e))
  >>=-eq-err (err fault) failed = inl (cc)
  >>=-eq-err (ok found) failed = inr (found, refl, failed)

-- What `json.loads` returns. A number written with a fraction or an exponent is a `float`, kept as
-- its mantissa and decimal exponent.
mutual
  pub data Value : Type 0 where
    null : Value
    bool : Bool → Value
    int : ℤ → Value
    float : ℤ → ℤ → Value
    str : String → Value
    list : Items → Value
    dict : Fields → Value

  pub data Items : Type 0 where
    nil : Items
    cons : Value → Items → Items

  pub data Fields : Type 0 where
    end : Fields
    field : String → Value → Fields → Fields
