-- ===== src/Common/Dict.antt =====
-- A Go map with string keys as an association list: `get m k` is `m[k]` with its second result,
-- `assign m k v` is `m[k] = v`, and `delete m k` removes every entry of the key.
use mathlib.Core.Path.{◌≡◌, refl}
use mathlib.Core.List.{List, [], ◌∷◌}
use mathlib.Core.Option.{Option, none, some}
use Prim.Native.String.{String}
use native.Mathlib.Omega.{arith}
use text.Mathlib.Text.{◌==◌ as str_eq}
use text.Mathlib.TextEquality.{eq_iff}
use eidola.Common.Tests.{if◌then◌else◌}

pub record Entry {ℓ} (V : Type ℓ) : Type ℓ where
  pub key : String
  pub value : V

abbrev pub Dict {ℓ} : Type ℓ → Type ℓ
Dict V = List (Entry V)

module _ {ℓ} {V : Type ℓ} where
  unfoldable pub get : Dict V → String → Option V
  get [] key = none
  get (e ∷ rest) key = if str_eq e.key key then some e.value else get rest key

  unfoldable pub assign : Dict V → String → V → Dict V
  assign [] key value = record { key = key; value = value } ∷ []
  assign (e ∷ rest) key value =
      if str_eq e.key key
      then record { key = key; value = value } ∷ rest
      else e ∷ assign rest key value

  unfoldable pub delete : Dict V → String → Dict V
  delete [] key = []
  delete (e ∷ rest) key = if str_eq e.key key then delete rest key else e ∷ delete rest key

  -- A read after an assignment, and after a deletion.
  pub get-assign :
      (m : Dict V) (key : String) (value : V) (at : String)
      → get (assign m key value) at ≡ (if str_eq key at then some value else get m at)
  unfolding get assign
  get-assign [] key value at = refl
  get-assign (e ∷ rest) key value at =
      ground (arith, eq_iff e.key key, eq_iff e.key at, eq_iff key at, get-assign rest key value at)

  pub get-delete :
      (m : Dict V) (key at : String)
      → get (delete m key) at ≡ (if str_eq key at then none else get m at)
  unfolding get delete
  get-delete [] key at = ground arith
  get-delete (e ∷ rest) key at =
      ground (arith, eq_iff e.key key, eq_iff e.key at, eq_iff key at, get-delete rest key at)
