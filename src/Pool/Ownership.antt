-- ===== src/Pool/Ownership.antt =====
-- Who has which element, over any history of PoolGet and PoolReturn.
use mathlib.Core.List.{Perm, perm_middle, Nodup, Mem, mem-cons_self, append_assoc, append-nil}
use native.Mathlib.Numerals.{add-one}
use mathlib.Core.List.Perm
use dubbo_service_mesh.Base.{
  suc, ◌≡◌, ◌≢◌, subst, ap, some, List, [], ◌∷◌, ◌++◌, arith, length, length-append,
}
use dubbo_service_mesh.Pool.{Ptr, null, Pool, Hooks, get, return}
use dubbo_service_mesh.Pool.Build.{free_items}
use dubbo_service_mesh.Pool.Stack.{Holds, get-Popped, return-Holds}

-- A pool, with the elements that its callers have.
pub record Use : Type 0 where
  pub pool : Pool
  pub held : List Ptr

module _ {W : Type 0} (h : Hooks W) where
  -- A caller takes an element, is turned away, or brings back one that it has. What happens to the
  -- world between the calls is left open.
  pub data Step : Use → Use → Type 0 where
    took :
        {p q : Pool} {held : List Ptr} {x : Ptr} (w w' : W)
        → get h p w ≡ some (x, q, w')
        → x ≢ null
        → Step (record { pool = p; held = held }) (record { pool = q; held = x ∷ held })
    refused :
        {p q : Pool} {held : List Ptr} (w w' : W)
        → get h p w ≡ some (null, q, w')
        → Step (record { pool = p; held = held }) (record { pool = q; held = held })
    returned :
        {p q : Pool} {mine : List Ptr} (x : Ptr) (w w' : W) (xs ys : List Ptr)
        → mine ≡ xs ++ x ∷ ys
        → return h p w x ≡ (q, w')
        → Step (record { pool = p; held = mine }) (record { pool = q; held = xs ++ ys })

  pub data Reach (s : Use) : Use → Type 0 where
    here : Reach s s
    next : {t u : Use} → Reach s t → Step t u → Reach s u

perm_bring :
    (x : Ptr) (free xs ys : List Ptr) → Perm (x ∷ free ++ (xs ++ ys)) (free ++ (xs ++ x ∷ ys))
perm_bring x free xs ys = subst (Perm (x ∷ free ++ (xs ++ ys))) (append_assoc free xs (x ∷ ys)) (
    subst (λ l. Perm (x ∷ l) ((free ++ xs) ++ x ∷ ys)) (append_assoc free xs ys)
      (Perm.symm (perm_middle (free ++ xs) ys)))

-- The free and the held elements are together the elements `items`.
pub record Owns (items : List Ptr) (s : Use) : Type 0 where
  pub free : List Ptr
  pub holds : Holds s.pool free (length s.held)
  pub together : Perm (free ++ s.held) items

module _ {W : Type 0} (h : Hooks W) (items : List Ptr) (real : ¬ Mem null items) where
  took-Owns :
      {p q : Pool} {held : List Ptr} {x : Ptr} (w w' : W) (free : List Ptr)
      → Holds p free (length held)
      → Perm (free ++ held) items
      → get h p w ≡ some (x, q, w')
      → x ≢ null
      → Owns items (record { pool = q; held = x ∷ held })
  took-Owns {p} w w' [] v t got ne = absurd (ground (arith, get-Popped h w v))
  took-Owns {q} {held} {x} w w' (y ∷ free) v t got ne =
      let (q', got', v') = get-Popped h w v in
      let same : (y ≡ x) × (q' ≡ q) = ground arith in
      record {
        free = free;
        holds = rw (← same.1) (rw add-one at v');
        together = Perm.trans (perm_middle free held) (rw same.0 at t);
      }

  refused-Owns :
      {p q : Pool} {held : List Ptr} (w w' : W) (free : List Ptr)
      → Holds p free (length held)
      → Perm (free ++ held) items
      → get h p w ≡ some (null, q, w')
      → Owns items (record { pool = q; held = held })
  refused-Owns {p} {q} w w' [] v t got =
      let same : p ≡ q = ground (arith, get-Popped h w v) in
      record { free = []; holds = rw (← same) v; together = t }
  refused-Owns {held} w w' (y ∷ free) v t got =
      let (q', got', v') = get-Popped h w v in
      let same : y ≡ null = ground arith in
      absurd (real ((Perm.mem_iff t).0 (subst (λ z. Mem z (y ∷ free ++ held)) same mem-cons_self)))

  returned-Owns :
      {p q : Pool} {mine : List Ptr} (x : Ptr) (w w' : W) (xs ys : List Ptr)
      → mine ≡ xs ++ x ∷ ys
      → return h p w x ≡ (q, w')
      → Owns items (record { pool = p; held = mine })
      → Owns items (record { pool = q; held = xs ++ ys })
  returned-Owns {q} {mine} x w w' xs ys e put o =
      let count : length mine ≡ suc (length (xs ++ ys)) =
        omega (arith, ap length e, length-append xs (x ∷ ys), length-append xs ys) in
      let (q', put', v') = return-Holds h w x (rw count at o.holds) in
      let same : q' ≡ q = ground arith in
      record {
        free = x ∷ o.free;
        holds = subst (λ r. Holds r (x ∷ o.free) (length (xs ++ ys))) same v';
        together = Perm.trans (perm_bring x o.free xs ys) (rw e at o.together);
      }

  Step-Owns : {s t : Use} → Step h s t → Owns items s → Owns items t
  Step-Owns (took w w' got ne) o = took-Owns w w' o.free o.holds o.together got ne
  Step-Owns (refused w w' got) o = refused-Owns w w' o.free o.holds o.together got
  Step-Owns (returned x w w' xs ys e put) o = returned-Owns x w w' xs ys e put o

  Reach-Owns : {s t : Use} → Owns items s → Reach h s t → Owns items t
  Reach-Owns o here = o
  Reach-Owns o (next r st) = Step-Owns st (Reach-Owns o r)

-- After any history of takes and returns that starts with every element of a full pool free, no
-- element is in two hands, or both free and in use, and every element is one of the pool's.
pub Reach-Nodup :
    {W : Type 0} (h : Hooks W) (p : Pool) (items : List Ptr) (t : Use)
    → Holds p items 0
    → Nodup items
    → ¬ Mem null items
    → Reach h (record { pool = p; held = [] }) t
    → Nodup (free_items t.pool ++ t.held) × Perm (free_items t.pool ++ t.held) items
Reach-Nodup h p items t v distinct real r =
    let start : Owns items (record { pool = p; held = [] }) = record {
      free = items;
      holds = v;
      together = rw append-nil Perm.rfl;
    } in
    let o = Reach-Owns h items real start r in
    rw o.holds.free (Perm.nodup (Perm.symm o.together) distinct, o.together)
