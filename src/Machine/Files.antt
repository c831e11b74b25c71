-- ===== src/Machine/Files.antt =====
-- The files of the host, by path.
use lara_nux.Base.{false, List, [], ◌∷◌, ◌++◌, Option, none, some, ◌≡◌, arith, if◌then◌else◌}
use lara_nux.Text.{Text, text_eq, text_eq_iff}

abbrev pub Files : Type 0
Files = List (Text × Text)

unfoldable pub lookup : Text → Files → Option Text
lookup path [] = none
lookup path ((p, x) ∷ files) = if text_eq p path then some x else lookup path files

unfoldable pub without : Text → Files → Files
without path [] = []
without path ((p, x) ∷ files) =
    let rest = without path files in if text_eq p path then rest else (p, x) ∷ rest

unfoldable pub put : Text → Text → Files → Files
unfolding without
put path content files = (path, content) ∷ without path files

unfoldable pub paths : Files → List Text
paths [] = []
paths ((p, x) ∷ files) = p ∷ paths files

pub lookup-without :
    (path q : Text) (files : Files)
    → lookup q (without path files) ≡ (if text_eq path q then none else lookup q files)
unfolding lookup without
lookup-without path q [] = ground arith
lookup-without path q ((p, x) ∷ files) =
    ground
      (arith, lookup-without path q files, text_eq_iff p path, text_eq_iff p q, text_eq_iff path q)

pub lookup-put :
    (path content q : Text) (files : Files)
    → lookup q (put path content files) ≡ (if text_eq path q then some content else lookup q files)
unfolding put lookup
lookup-put path content q files = ground (arith, lookup-without path q files)

-- A path with something appended is another path.
pub text_eq-append : (p s : Text) → text_eq s [] ≡ false → text_eq (p ++ s) p ≡ false
unfolding text_eq
text_eq-append [] s h = h
text_eq-append (c ∷ p) s h = ground (arith, text_eq-append p s h)

pub text_eq_symm : (s t : Text) → text_eq s t ≡ text_eq t s
text_eq_symm s t = ground (arith, text_eq_iff s t, text_eq_iff t s)
