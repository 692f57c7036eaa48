-- ===== src/Prelude/Colons.antt =====
-- Texts joined by a colon, as keys of maps are.
use Prim.Native.String
use Prim.Native.String.{String}
use Prim.Native.Char.{code}
use text.Mathlib.TextLemmas.{cons-append, nil-append}
use mathlib.Core.Path.{◌≡◌, refl}
use mathlib.Core.Logic.{◌≢◌}
use native.Mathlib.Omega.{arith}
use pmeow.Prelude.Tests.{if◌then◌else◌}
use pmeow.Prelude.Equality.{◌==◌, nat_eq, eq_iff}

abbrev pub NoColon : String → Type 0
NoColon String.[] = Unit {0}
NoColon (String.◌∷◌ c s) = (code c ≢ b':') × NoColon s

pub before_colon : String → String
before_colon String.[] = ""
before_colon (String.◌∷◌ c s) = if code c == b':' then "" else String.◌∷◌ c (before_colon s)

colon-append : (fp : String) → before_colon (String.◌++◌ ":" fp) ≡ ""
unfolding before_colon
colon-append fp = rw (cons-append ":" "" fp) refl

pub before_colon-append :
    (s fp : String) → NoColon s → before_colon (String.◌++◌ s (String.◌++◌ ":" fp)) ≡ s
unfolding before_colon
before_colon-append String.[] fp h = rw nil-append (colon-append fp)
before_colon-append (String.◌∷◌ c s) fp (h, hs) =
    rw cons-append (ground (arith, before_colon-append s fp hs, eq_iff (code c) b':'))
