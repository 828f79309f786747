-- ===== src/Log/Position.antt =====
-- The position string of src/log.c: the end of the file's name and the line.
use dubbo_service_mesh.Base.{
  ℕ, ◌+◌, ◌-◌, ◌%◌, ◌^◌, ◌≤◌, ◌<◌, ◌≡◌, ◌⊎◌, refl, inl, inr, true, false, some, List, [], ◌∷◌, ◌++◌,
  arith, length, length-append, length-drop, take-append-drop, sym, take, drop, ltb, Bool-cases,
  ◌&&◌, if◌then◌else◌,
}
use dubbo_service_mesh.Net.Buffer.{size_sub}
use dubbo_service_mesh.Text.{decimal}
use dubbo_service_mesh.Text.Decimal.{length-decimal}
use dubbo_service_mesh.Log.{position}

-- A line number that an int holds has at most ten digits.
length-line : (n : ℕ) → n < 2 ^ 31 → length (decimal n) ≤ 10
length-line n h = length-decimal 9 n (omega arith)

-- With room for at least eleven characters and a line number that an int holds, the position is the
-- end of the file's name, a colon and the line: all of the name if this fits into the room, and
-- otherwise as much of its end as fills the room exactly. It is within both its arrays.
pub position_lem :
    (pos_max_size : ℕ) (file : List ℕ) (line : ℕ)
    → 11 ≤ pos_max_size
    → pos_max_size < 32
    → length file < 2 ^ 31
    → line < 2 ^ 31
    → (front back : List ℕ) × (file ≡ front ++ back)
      × (position pos_max_size file line ≡ some (back ++ b':' ∷ decimal line))
      × ((front ≡ []) × (length (back ++ b':' ∷ decimal line) ≤ pos_max_size)
          ⊎ (length (back ++ b':' ∷ decimal line) ≡ pos_max_size))
unfolding position
position_lem m file line low high small int =
    let digits = length-line line int in
    let diff = size_sub (length file + length (decimal line) + 1) m % 2 ^ 32 in
    let whole = length-append file (b':' ∷ decimal line) in
    elim (Bool-cases (ltb m (length file + length (decimal line) + 1))) [
      | inr fits ↦
          let kept : (if ltb 0 diff && ltb diff (2 ^ 31) then diff else 0) ≡ 0 = ground arith in
          let a : ltb (length (decimal line)) 16 ≡ true = ground arith in
          let b : ltb (length (file ++ b':' ∷ decimal line)) 32 ≡ true = ground arith in
          let c : ltb (length file) 0 ≡ false = ground arith in
          ([], file, refl, rw (kept, a, b, c) refl, inl (refl, ground arith))
      | inl long ↦
          let kept : (if ltb 0 diff && ltb diff (2 ^ 31) then diff else 0) ≡ diff = ground arith in
          let cut : diff ≡ length file + length (decimal line) + 1 - m = ground arith in
          let shorter = length-drop diff file in
          let rest = length-append (drop diff file) (b':' ∷ decimal line) in
          let full : length (drop diff file ++ b':' ∷ decimal line) ≡ m = ground arith in
          let a : ltb (length (decimal line)) 16 ≡ true = ground arith in
          let b : ltb (length (drop diff file ++ b':' ∷ decimal line)) 32 ≡ true = ground arith in
          let c : ltb (length file) diff ≡ false = ground arith in
          (
            take diff file,
            drop diff file,
            sym (take-append-drop diff file),
            rw (kept, a, b, c) refl,
            inr full,
          )
    ]
