-- ===== src/Gc/Collect/Steps.antt =====
-- gc.c: the states that the collector reaches from `gc_init`.
use animula.Prelude.{ℕ, ◌≡◌, refl, List}
use animula.Run.{ok}
use animula.Object.{OType}
use animula.Gc.{Blocks, Gc, gc_init, gc_obj_book, gc_inner_obj_book}
use animula.Gc.Roots.{Info}
use animula.Gc.Returns.{ok-Returns}
use animula.Gc.Collect.{gc, gc_clean_cache, gc_try_to_recycle, gc_pool_malloc}
use animula.Gc.Collect.Balance.{
  IsBalanced, Conserved, Conserved-IsBalanced, gc-Conserved, gc_pool_malloc-Conserved,
  gc_clean_cache-Conserved, gc_try_to_recycle-Conserved, gc_obj_book-Conserved,
  gc_inner_obj_book-Conserved,
}

-- The calls of the collector, and what the program writes to the heap between them.
pub data Step (g : Gc) : Gc → Type 0 where
  writes : (m : Blocks) → Step g (record g { heap = m })
  allocates : (t : OType) (p : ℕ) (g' : Gc) → gc_pool_malloc t g ≡ ok (p, g') → Step g g'
  books : (obj : ℕ) (g' : Gc) → gc_obj_book obj g ≡ ok g' → Step g g'
  books_inner : (t : OType) (obj : ℕ) (g' : Gc) → gc_inner_obj_book t obj g ≡ ok g' → Step g g'
  collects : (fuel : ℕ) (info : Info) (g' : Gc) → gc fuel info g ≡ ok g' → Step g g'
  cleans : (fuel : ℕ) (g' : Gc) → gc_clean_cache fuel g ≡ ok g' → Step g g'
  recycles : (g' : Gc) → gc_try_to_recycle g ≡ ok g' → Step g g'

pub data Reaches (nodes : List ℕ) (m : Blocks) : Gc → Type 0 where
  init : Reaches nodes m (gc_init nodes m)
  and_then : {g g' : Gc} → Reaches nodes m g → Step g g' → Reaches nodes m g'

Step-IsBalanced : {g g' : Gc} → Step g g' → IsBalanced g → IsBalanced g'
Step-IsBalanced (writes m) h = h
Step-IsBalanced {g} (allocates t p g' e) h =
    Conserved-IsBalanced g g' h
      (ok-Returns (λ r. Conserved g r.1) _ (p, g') e (gc_pool_malloc-Conserved t g))
Step-IsBalanced {g} (books obj g' e) h =
    Conserved-IsBalanced g g' h (ok-Returns (Conserved g) _ g' e (gc_obj_book-Conserved obj g))
Step-IsBalanced {g} (books_inner t obj g' e) h =
    Conserved-IsBalanced g g' h
      (ok-Returns (Conserved g) _ g' e (gc_inner_obj_book-Conserved t obj g))
Step-IsBalanced {g} (collects fuel info g' e) h =
    Conserved-IsBalanced g g' h (ok-Returns (Conserved g) _ g' e (gc-Conserved fuel info g))
Step-IsBalanced {g} (cleans fuel g' e) h =
    Conserved-IsBalanced g g' h (ok-Returns (Conserved g) _ g' e (gc_clean_cache-Conserved fuel g))
Step-IsBalanced {g} (recycles g' e) h =
    Conserved-IsBalanced g g' h (ok-Returns (Conserved g) _ g' e (gc_try_to_recycle-Conserved g))

-- In every state that the calls of the collector reach from `gc_init`, whatever the program writes to
-- the heap between them, the number of slots of `_oln` that are given away is the number of nodes in
-- the seven pools.
pub Reaches-IsBalanced : (nodes : List ℕ) (m : Blocks) (g : Gc) → Reaches nodes m g → IsBalanced g
Reaches-IsBalanced nodes m g init = refl
Reaches-IsBalanced nodes m g (and_then r s) = Step-IsBalanced s (Reaches-IsBalanced nodes m _ r)
