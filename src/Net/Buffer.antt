-- ===== src/Net/Buffer.antt =====
-- Fixed byte buffers of a connection: an array, what read(2) stores in it, and what write(2) is
-- given of it.
use mathlib.Core.List.{append_assoc, head-eq_of_cons-eq, tail-eq_of_cons-eq}
use dubbo_service_mesh.Base.{
  ◌∙◌, ℕ, zero, suc, ◌+◌, ◌-◌, ◌%◌, ◌^◌, ◌≤◌, ◌<◌, ◌≡◌, refl, List, [], ◌∷◌, ◌++◌, arith, ap, ap₂,
  length, take, drop, take-append-drop, ◌==◌, if◌then◌else◌,
}

abbrev pub Buf : Type 0
Buf = ℕ → ℕ

-- The bytes `bs` stored from `off` on.
unfoldable pub blit : Buf → (off : ℕ) → List ℕ → Buf
blit buf off [] = buf
blit buf off (b ∷ bs) = blit (λ j. if j == off then b else buf j) (off + 1) bs

-- The `n` bytes from `off` on.
unfoldable pub slice : Buf → (off n : ℕ) → List ℕ
slice buf off zero = []
slice buf off (suc n) = buf off ∷ slice buf (off + 1) n

-- a - b as a size_t.
abbrev pub size_sub : ℕ → ℕ → ℕ
size_sub a b = (a + 2 ^ 64 - b) % 2 ^ 64

pub length-slice : (buf : Buf) (off n : ℕ) → length (slice buf off n) ≡ n
unfolding slice
length-slice buf off zero = refl
length-slice buf off (suc n) = ap suc (length-slice buf (off + 1) n)

pub blit_before : (buf : Buf) (off j : ℕ) (bs : List ℕ) → j < off → blit buf off bs j ≡ buf j
unfolding blit
blit_before buf off j [] h = refl
blit_before buf off j (b ∷ bs) h =
    ground (arith, blit_before (λ i. if i == off then b else buf i) (off + 1) j bs)

-- A slice that ends before the bytes are stored is as it was.
pub slice-blit_before :
    (buf : Buf) (off at n : ℕ) (bs : List ℕ)
    → at + n ≤ off
    → slice (blit buf off bs) at n ≡ slice buf at n
unfolding slice
slice-blit_before buf off at zero bs h = refl
slice-blit_before buf off at (suc n) bs h =
    ap₂ ◌∷◌ (blit_before buf off at bs (omega arith))
      (slice-blit_before buf off (at + 1) n bs (omega arith))

-- The stored bytes can be read back.
pub slice-blit : (buf : Buf) (off : ℕ) (bs : List ℕ) → slice (blit buf off bs) off (length bs) ≡ bs
unfolding slice blit
slice-blit buf off [] = refl
slice-blit buf off (b ∷ bs) =
    ap₂ ◌∷◌ (ground (arith, blit_before (λ j. if j == off then b else buf j) (off + 1) off bs))
      (slice-blit (λ j. if j == off then b else buf j) (off + 1) bs)

pub slice-append :
    (buf : Buf) (off m n : ℕ) → slice buf off (m + n) ≡ slice buf off m ++ slice buf (off + m) n
unfolding slice
slice-append buf off zero n =
    let left : 0 + n ≡ n = omega arith in
    let right : off + 0 ≡ off = omega arith in rw (left, right)
slice-append buf off (suc m) n =
    let left : suc m + n ≡ suc (m + n) = omega arith in
    let right : off + suc m ≡ off + 1 + m = omega arith in
    rw (left, right) (ap (◌∷◌ (buf off)) (slice-append buf (off + 1) m n))

pub drop-slice :
    (buf : Buf) (off m n : ℕ) → m ≤ n → drop m (slice buf off n) ≡ slice buf (off + m) (n - m)
unfolding slice
drop-slice buf off zero n h =
    let start : off + 0 ≡ off = omega arith in
    let size : n - 0 ≡ n = omega arith in rw (start, size)
drop-slice buf off (suc m) zero h = elim h [ ]
drop-slice buf off (suc m) (suc n) h =
    let start : off + suc m ≡ off + 1 + m = omega arith in
    let size : suc n - suc m ≡ n - m = omega arith in
    rw (start, size) (drop-slice buf (off + 1) m n (omega arith))

-- The bytes read and not yet written, `w` being the position of the next write and `r` that of the
-- next read.
abbrev pub pending : Buf → (w r : ℕ) → List ℕ
pending buf w r = slice buf w (r - w)

-- What is read joins the pending bytes at their end.
pub pending-blit :
    (buf : Buf) (w r : ℕ) (bs : List ℕ)
    → w ≤ r
    → pending (blit buf r bs) w (r + length bs) ≡ pending buf w r ++ bs
pending-blit buf w r bs h =
    let size : r + length bs - w ≡ r - w + length bs = omega arith in
    let end : w + (r - w) ≡ r = omega arith in
    rw (size, slice-append (blit buf r bs) w (r - w) (length bs), end, slice-blit buf r bs)
      (ap (λ l. l ++ bs) (slice-blit_before buf r w (r - w) bs (omega arith)))

-- What is written leaves from their front.
pub take-pending :
    (buf : Buf) (w r n : ℕ)
    → w + n ≤ r
    → take n (pending buf w r) ++ pending buf (w + n) r ≡ pending buf w r
take-pending buf w r n h =
    let size : r - (w + n) ≡ r - w - n = omega arith in
    rw (size, ← drop-slice buf w n (r - w) (omega arith)) (take-append-drop n (pending buf w r))

blit_after : (buf : Buf) (off j : ℕ) (bs : List ℕ) → off + length bs ≤ j → blit buf off bs j ≡ buf j
unfolding blit
blit_after buf off j [] h = refl
blit_after buf off j (b ∷ bs) h =
    ground (arith, blit_after (λ i. if i == off then b else buf i) (off + 1) j bs)

-- A slice behind the bytes that are stored is as it was.
pub slice-blit_after :
    (buf : Buf) (off at n : ℕ) (bs : List ℕ)
    → off + length bs ≤ at
    → slice (blit buf off bs) at n ≡ slice buf at n
unfolding slice
slice-blit_after buf off at zero bs h = refl
slice-blit_after buf off at (suc n) bs h =
    ap₂ ◌∷◌ (blit_after buf off at bs h) (slice-blit_after buf off (at + 1) n bs (omega arith))

pub slice-blit_prefix :
    (buf : Buf) (off : ℕ) (xs ys : List ℕ) → slice (blit buf off (xs ++ ys)) off (length xs) ≡ xs
unfolding slice blit
slice-blit_prefix buf off [] ys = refl
slice-blit_prefix buf off (x ∷ xs) ys =
    ap₂ ◌∷◌
      (ground (arith, blit_before (λ j. if j == off then x else buf j) (off + 1) off (xs ++ ys)))
      (slice-blit_prefix (λ j. if j == off then x else buf j) (off + 1) xs ys)

-- Where `xs` have gone out before them.
pub append-take-pending :
    (xs : List ℕ) (buf : Buf) (w r n : ℕ)
    → w + n ≤ r
    → (xs ++ take n (pending buf w r)) ++ pending buf (w + n) r ≡ xs ++ pending buf w r
append-take-pending xs buf w r n h =
    append_assoc xs (take n (pending buf w r)) (pending buf (w + n) r)
    ∙ ap (λ l. xs ++ l) (take-pending buf w r n h)

blit-append :
    (buf : Buf) (off : ℕ) (xs ys : List ℕ)
    → blit buf off (xs ++ ys) ≡ blit (blit buf off xs) (off + length xs) ys
unfolding blit
blit-append buf off [] ys = let end : off + 0 ≡ off = omega arith in rw end refl
blit-append buf off (x ∷ xs) ys =
    let end : off + suc (length xs) ≡ off + 1 + length xs = omega arith in
    rw end (blit-append (λ j. if j == off then x else buf j) (off + 1) xs ys)

-- The second part of what has been stored at the start, and what is behind it in memory.
pub slice-blit_rest :
    (buf : Buf) (size : ℕ) (xs ys : List ℕ)
    → length xs + length ys ≤ size
    → slice (blit buf 0 (xs ++ ys)) (length xs) (size - length xs)
      ≡ ys ++ slice (blit buf 0 (xs ++ ys)) (length xs + length ys) (size - (length xs + length ys))
slice-blit_rest buf size xs ys h =
    let all = blit buf 0 (xs ++ ys) in
    let room : size - length xs ≡ length ys + (size - (length xs + length ys)) = omega arith in
    let from : 0 + length xs ≡ length xs = omega arith in
    let here : slice all (length xs) (length ys) ≡ ys =
      ap (λ b. slice b (length xs) (length ys)) (blit-append buf 0 xs ys)
      ∙ rw from (slice-blit (blit buf 0 xs) (length xs) ys) in
    rw room (
      slice-append all (length xs) (length ys) (size - (length xs + length ys))
      ∙ ap (λ l. l ++ slice all (length xs + length ys) (size - (length xs + length ys))) here)

-- A slice that is known to be two texts, one after the other.
pub slice_parts :
    (buf : Buf) (off n : ℕ) (xs ys : List ℕ)
    → slice buf off (length xs + n) ≡ xs ++ ys
    → (slice buf off (length xs) ≡ xs) × (slice buf (off + length xs) n ≡ ys)
unfolding slice
slice_parts buf off n [] ys e =
    let none_before : off + 0 ≡ off = omega arith in
    let all : 0 + n ≡ n = omega arith in (refl, rw (none_before, ← all) e)
slice_parts buf off n (x ∷ xs) ys e =
    let size : suc (length xs) + n ≡ suc (length xs + n) = omega arith in
    let whole : buf off ∷ slice buf (off + 1) (length xs + n) ≡ x ∷ (xs ++ ys) = rw size at e in
    let (first, second) = slice_parts buf (off + 1) n xs ys (tail-eq_of_cons-eq whole) in
    let from : off + suc (length xs) ≡ off + 1 + length xs = omega arith in
    (ap₂ ◌∷◌ (head-eq_of_cons-eq whole) first, rw from second)
