-- ===== src/Prelude/Text.antt =====
-- Slices of texts: `s[:n]` and `s[n:]`, whose positions count characters.
use Prim.Native.Nat.{ℕ, zero, suc, ◌+◌}
use Prim.Native.String.{String, ◌++◌}
use Prim.Native.String.append
use mathlib.Core.Path.{◌≡◌, refl, ap}
use native.Mathlib.Omega.{arith}

-- `len(s)`
unfoldable pub characters : String → ℕ
characters String.[] = 0
characters (String.◌∷◌ c s) = suc (characters s)

-- `s[:n]`
unfoldable pub prefix : ℕ → String → String
prefix zero s = String.[]
prefix (suc n) String.[] = String.[]
prefix (suc n) (String.◌∷◌ c s) = String.◌∷◌ c (prefix n s)

-- `s[n:]`
unfoldable pub suffix : ℕ → String → String
suffix zero s = s
suffix (suc n) String.[] = String.[]
suffix (suc n) (String.◌∷◌ c s) = suffix n s

pub characters-append : (s t : String) → characters (s ++ t) ≡ characters s + characters t
unfolding characters
characters-append String.[] t = rw append.nil (omega arith)
characters-append (String.◌∷◌ c s) t = rw append.cons (omega (arith, characters-append s t))

pub prefix-append : (s t : String) → prefix (characters s) (s ++ t) ≡ s
unfolding prefix characters
prefix-append String.[] t = refl
prefix-append (String.◌∷◌ c s) t = rw append.cons (ap (λ r. String.◌∷◌ c r) (prefix-append s t))

pub suffix-append : (s t : String) → suffix (characters s) (s ++ t) ≡ t
unfolding suffix characters
suffix-append String.[] t = rw append.nil refl
suffix-append (String.◌∷◌ c s) t = rw append.cons (suffix-append s t)

pub append_assoc : (s t u : String) → (s ++ t) ++ u ≡ s ++ (t ++ u)
append_assoc String.[] t u = simp append.nil
append_assoc (String.◌∷◌ c s) t u = simp (append.cons, append_assoc s t u)
