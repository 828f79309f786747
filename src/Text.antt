-- ===== src/Text.antt =====
-- What the sources use of <string.h>, atoi and printf. A C string is the list of its bytes up to its
-- NUL; a list of bytes that may hold a NUL is memory, to the end of its array.
pub mod Decimal
pub mod Search
use Prim.Native.Char.{code}
use Prim.Native.String.{String}
use dubbo_service_mesh.Base.{
  ℕ, zero, suc, ◌+◌, ◌-◌, ◌*◌, ◌/◌, ◌%◌, ◌≡◌, refl, Bool, true, false, ◌&&◌, ◌||◌, Option, none,
  some, List, [], ◌∷◌, ◌++◌, ltb, leb, ◌==◌, ℤ, pos, negsuc, sub_ℕ, if◌then◌else◌, ◌>>=◌,
}

-- The bytes of a literal.
abbrev pub bytes : String → List ℕ
bytes String.[] = []
bytes (String.◌∷◌ c s) = code c ∷ bytes s

-- strchr in memory: what stands from the first `c` on; nothing if a NUL or the end comes first.
unfoldable pub strchr : (c : ℕ) → List ℕ → Option (List ℕ)
strchr c [] = none
strchr c (x ∷ xs) =
    let rest = strchr c xs in if x == c then some (x ∷ xs) else if x == 0 then none else rest

-- The C string at the start of memory; nothing if the array ends before its NUL.
unfoldable pub c_string : List ℕ → Option (List ℕ)
c_string [] = none
c_string (x ∷ xs) = if x == 0 then some [] else (c_string xs >>= λ r. some (x ∷ r))

-- What `%.*s` prints with precision `n`: bytes up to a NUL, at most `n`.
unfoldable pub bounded_string : (n : ℕ) → List ℕ → List ℕ
bounded_string zero xs = []
bounded_string (suc n) [] = []
bounded_string (suc n) (x ∷ xs) = let rest = bounded_string n xs in if x == 0 then [] else x ∷ rest

-- `strncmp(xs, ys, n) == 0`, a NUL standing at the end of a list.
abbrev head_or_nul : List ℕ → ℕ
head_or_nul [] = 0
head_or_nul (x ∷ xs) = x

abbrev rest_of : List ℕ → List ℕ
rest_of [] = []
rest_of (x ∷ xs) = xs

unfoldable pub strncmp_eq : (n : ℕ) → List ℕ → List ℕ → Bool
strncmp_eq zero xs ys = true
strncmp_eq (suc n) xs ys =
    let rest = strncmp_eq n (rest_of xs) (rest_of ys) in
    if head_or_nul xs == head_or_nul ys then (head_or_nul xs == 0 || rest) else false

-- strrchr: the text from the last `c` on.
unfoldable pub strrchr : (c : ℕ) → List ℕ → Option (List ℕ)
strrchr c [] = none
strrchr c (x ∷ xs) = elim (strrchr c xs) [
  | some r ↦ some r
  | none ↦ if x == c then some (x ∷ xs) else none
]

abbrev pub is_digit : ℕ → Bool
is_digit c = leb b'0' c && leb c b'9'

abbrev pub is_space : ℕ → Bool
is_space c = c == 32 || (leb 9 c && leb c 13)

-- The value of the leading digits, after `acc`.
unfoldable pub digits_value : (acc : ℕ) → List ℕ → ℕ
digits_value acc [] = acc
digits_value acc (c ∷ cs) =
    let rest = digits_value (acc * 10 + (c - b'0')) cs in if is_digit c then rest else acc

unfoldable pub skip_space : List ℕ → List ℕ
skip_space [] = []
skip_space (c ∷ cs) = if is_space c then skip_space cs else c ∷ cs

unfoldable pub signed_value : List ℕ → ℤ
unfolding digits_value
signed_value [] = pos 0
signed_value (c ∷ cs) =
    if c == b'-'
    then sub_ℕ 0 (digits_value 0 cs)
    else if c == b'+'
    then pos (digits_value 0 cs)
    else pos (digits_value 0 (c ∷ cs))

-- atoi, for values that an int holds.
unfoldable pub atoi : List ℕ → ℤ
unfolding skip_space signed_value
atoi s = signed_value (skip_space s)

unfoldable pub decimal_from : (fuel n : ℕ) → List ℕ → List ℕ
decimal_from zero n acc = acc
decimal_from (suc f) n acc =
    let more = decimal_from f (n / 10) ((b'0' + n % 10) ∷ acc) in
    if n / 10 == 0 then (b'0' + n % 10) ∷ acc else more

-- `%ld` of a number that is not negative. A number has at most as many digits as itself.
unfoldable pub decimal : ℕ → List ℕ
unfolding decimal_from
decimal n = decimal_from (suc n) n []

-- `%d` of an int.
unfoldable pub decimal_int : ℤ → List ℕ
decimal_int (pos n) = decimal n
decimal_int (negsuc n) = b'-' ∷ decimal (suc n)
