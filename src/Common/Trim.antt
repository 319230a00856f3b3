-- ===== src/Common/Trim.antt =====
-- `strings.TrimSpace`
use mathlib.Core.Path.{◌≡◌, refl, ◌∙◌}
use Prim.Native.Nat.{ℕ}
use mathlib.Core.Bool.{false}
use mathlib.Core.List.{[], ◌∷◌, ◌++◌}
use irengine.Common.Tests.{if◌then◌else◌}
use irengine.Common.Strings.{Text}
use irengine.Common.Unicode.{is_space}

unfoldable pub trim_left : Text → Text
trim_left [] = []
trim_left (c ∷ s) = let rest = trim_left s in if is_space c then rest else c ∷ s

unfoldable pub trim_end : Text → Text
trim_end [] = []
trim_end (c ∷ s) = elim (trim_end s) [ [] ↦ if is_space c then [] else c ∷ [] | d ∷ r ↦ c ∷ d ∷ r ]

unfoldable pub trim_space : Text → Text
unfolding trim_left trim_end
trim_space s = trim_end (trim_left s)

-- A space at the end goes.
trim_end-space : (s : Text) → trim_end (s ++ b' ' ∷ []) ≡ trim_end s
unfolding trim_end is_space
trim_end-space [] = refl
trim_end-space (c ∷ s) = rw (trim_end-space s) refl

-- A text without spaces around it comes out of the text with a space behind it.
pub trim_space-append :
    (c : ℕ) (s : Text)
    → is_space c ≡ false
    → trim_end (c ∷ s) ≡ c ∷ s
    → trim_space (c ∷ s ++ b' ' ∷ []) ≡ c ∷ s
unfolding trim_space trim_left
trim_space-append c s h e = rw h (trim_end-space (c ∷ s) ∙ e)
