-- ===== src/Text/Search.antt =====
-- Where strchr and strrchr stop.
use dubbo_service_mesh.Base.{ℕ, ◌≡◌, ◌≢◌, refl, some, none, List, [], ◌∷◌, ◌++◌, arith, All, length}
use dubbo_service_mesh.Text.{strchr, strrchr, c_string, bounded_string}

-- `c` does not occur.
abbrev pub Lacks : ℕ → List ℕ → Type 0
Lacks c = All (λ x. x ≢ c)

pub strchr-append :
    (c : ℕ) (xs ys : List ℕ) → Lacks c xs → Lacks 0 xs → strchr c (xs ++ c ∷ ys) ≡ some (c ∷ ys)
unfolding strchr
strchr-append c [] ys a z = ground arith
strchr-append c (x ∷ xs) ys a z = ground (arith, strchr-append c xs ys a.1 z.1)

strrchr-none : (c : ℕ) (ys : List ℕ) → Lacks c ys → strrchr c ys ≡ none
unfolding strrchr
strrchr-none c [] a = refl
strrchr-none c (y ∷ ys) a = ground (arith, strrchr-none c ys a.1)

pub strrchr-append :
    (c : ℕ) (xs ys : List ℕ) → Lacks c ys → strrchr c (xs ++ c ∷ ys) ≡ some (c ∷ ys)
unfolding strrchr
strrchr-append c [] ys a = ground (arith, strrchr-none c ys a)
strrchr-append c (x ∷ xs) ys a = ground (arith, strrchr-append c xs ys a)

-- `%.*s` of a text with no NUL, at its length.
pub bounded_string-append :
    (xs ys : List ℕ) → Lacks 0 xs → bounded_string (length xs) (xs ++ ys) ≡ xs
unfolding bounded_string
bounded_string-append [] ys a = refl
bounded_string-append (x ∷ xs) ys a = ground (arith, bounded_string-append xs ys a.1)

pub c_string-append : (xs ys : List ℕ) → Lacks 0 xs → c_string (xs ++ 0 ∷ ys) ≡ some xs
unfolding c_string
c_string-append [] ys a = refl
c_string-append (x ∷ xs) ys a = ground (arith, c_string-append xs ys a.1)
