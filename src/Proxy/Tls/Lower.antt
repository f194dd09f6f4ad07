-- ===== src/Proxy/Tls/Lower.antt =====
-- Names in lower case, and the part of a name from its first dot.
use vortex_proxy.Prelude.{◌≡◌, ◌≢◌, refl, ap, arith, [], ◌∷◌, ◌++◌, some, Text, length}
use vortex_proxy.Proxy.Tls.{lower_byte, to_lowercase, from_dot, dot}

-- No dot in a label of a name.
abbrev pub IsLabel : Text → Type 0
IsLabel [] = Unit
IsLabel (b ∷ s) = (b ≢ dot) × IsLabel s

pub to_lowercase_idem : (s : Text) → to_lowercase (to_lowercase s) ≡ to_lowercase s
unfolding to_lowercase
to_lowercase_idem [] = refl
to_lowercase_idem (b ∷ s) = ground (arith, to_lowercase_idem s)

pub to_lowercase-append : (s t : Text) → to_lowercase (s ++ t) ≡ to_lowercase s ++ to_lowercase t
unfolding to_lowercase
to_lowercase-append [] t = refl
to_lowercase-append (b ∷ s) t = ap (λ r. lower_byte b ∷ r) (to_lowercase-append s t)

pub length-to_lowercase : (s : Text) → length (to_lowercase s) ≡ length s
unfolding to_lowercase
length-to_lowercase [] = refl
length-to_lowercase (b ∷ s) = ground (arith, length-to_lowercase s)

pub to_lowercase-IsLabel : (s : Text) → IsLabel s → IsLabel (to_lowercase s)
unfolding to_lowercase
to_lowercase-IsLabel [] h = tt
to_lowercase-IsLabel (b ∷ s) (n, h) = (λ e. n (ground arith), to_lowercase-IsLabel s h)

-- The first dot of a name stands behind its first label.
pub from_dot-label :
    (label rest : Text) → IsLabel label → from_dot (label ++ dot ∷ rest) ≡ some (dot ∷ rest)
unfolding from_dot
from_dot-label [] rest h = refl
from_dot-label (b ∷ s) rest (n, h) = ground (arith, from_dot-label s rest h)

pub to_lowercase-dot :
    (label rest : Text)
    → to_lowercase (label ++ dot ∷ rest) ≡ to_lowercase label ++ dot ∷ to_lowercase rest
unfolding to_lowercase
to_lowercase-dot label rest = to_lowercase-append label (dot ∷ rest)
