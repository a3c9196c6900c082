-- ===== src/Prelude/Dict.antt =====
-- Python's `dict` with string keys: an association list in insertion order.
use Prim.Native.Nat.{suc, ◌+◌, ◌≤◌}
use Prim.Native.String.{String}
use mathlib.Core.Path.{◌≡◌, refl}
use mathlib.Core.Option.{Option, none, some}
use mathlib.Core.List.{List, [], ◌∷◌}
use native.Mathlib.Omega.{arith}
use text.Mathlib.Text.{◌==◌}
use text.Mathlib.TextEquality.{eq_iff}
use auto_bot.Prelude.Tests.{if◌then◌else◌}
use auto_bot.Prelude.Lists.{length}

abbrev pub Dict {ℓ} : Type ℓ → Type ℓ
Dict V = List (String × V)

module _ {ℓ} {V : Type ℓ} where
  -- d.get(k)
  abbrev pub get : Dict V → String → Option V
  get [] k = none
  get ((j, v) ∷ d) k = if j == k then some v else get d k

  -- d[k] = v
  abbrev pub put : Dict V → String → V → Dict V
  put [] k v = (k, v) ∷ []
  put ((j, w) ∷ d) k v = if j == k then (j, v) ∷ d else (j, w) ∷ put d k v

  -- The assignments of a dict comprehension, in order.
  abbrev pub put_all : Dict V → List (String × V) → Dict V
  put_all d [] = d
  put_all d ((k, v) ∷ rest) = put_all (put d k v) rest

  abbrev pub keys : Dict V → List String
  keys [] = []
  keys ((k, v) ∷ d) = k ∷ keys d

  pub get-put :
      (dict : Dict V) (k j : String) (new : V)
      → get (put dict k new) j ≡ (if k == j then some new else get dict j)
  get-put [] k j new = refl
  get-put ((i, old) ∷ rest) k j new =
      ground (arith, eq_iff k j, eq_iff i k, eq_iff i j, get-put rest k j new)

  pub length-put : (d : Dict V) (k : String) (v : V) → length (put d k v) ≤ suc (length d)
  length-put [] k v = omega arith
  length-put ((i, w) ∷ d) k v = ground (arith, length-put d k v)

  pub length-put_all :
      (d : Dict V) (rest : List (String × V)) → length (put_all d rest) ≤ length d + length rest
  length-put_all d [] = omega arith
  length-put_all d ((k, v) ∷ rest) =
      omega (arith, length-put d k v, length-put_all (put d k v) rest)
