-- ===== src/Common/Dict.antt =====
-- Go's `map[string]V`, where the program only reads and writes single keys.
use Prim.Native.String.{String}
use mathlib.Core.Path.{◌≡◌}
use mathlib.Core.Logic.{◌≢◌}
use mathlib.Core.Option.{Option, none, some}
use native.Mathlib.Omega.{arith}
use text.Mathlib.Text.{◌==◌}
use text.Mathlib.TextEquality.{eq_iff}
use go_attend.Common.Tests.{if◌then◌else◌}

abbrev pub Dict {ℓ} : Type ℓ → Type ℓ
Dict V = String → Option V

module _ {ℓ} {V : Type ℓ} where
  abbrev pub empty : Dict V
  empty key = none

  unfoldable pub put : String → V → Dict V → Dict V
  put key v m j = if key == j then some v else m j

  pub put_self : (key : String) (v : V) (m : Dict V) → put key v m key ≡ some v
  unfolding put
  put_self key v m = ground (arith, eq_iff key key)

  pub put_ne : (key j : String) (v : V) (m : Dict V) → key ≢ j → put key v m j ≡ m j
  unfolding put
  put_ne key j v m h = ground (arith, eq_iff key j)
