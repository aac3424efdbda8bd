-- ===== src/Lists/Chain.antt =====
-- The chains of nodes that the lists of list.c are.
use animula.Prelude.{
  ℕ, zero, suc, ◌≡◌, ◌≢◌, refl, ◌∙◌, Bool, true, false, ◌||◌, ◌==◌, Option, some, List, [], ◌∷◌,
  ◌++◌, get_elem?, set, drop, arith,
}
use animula.Store.{ListNode, ListHead, Store, put, put_same, put_other}

-- What a chain stands for: the addresses of each node and of its object, in order.
abbrev pub Cells : Type 0
Cells = List (ℕ × ℕ)

-- Where the nodes of a chain start that goes on to `stop`.
abbrev pub start : Cells → (stop : ℕ) → ℕ
start [] stop = stop
start ((a, _) ∷ xs) stop = a

abbrev pub has : ℕ → Cells → Bool
has a [] = false
has a ((b, _) ∷ xs) = (a == b) || has a xs

abbrev pub objs : Cells → List ℕ
objs [] = []
objs ((_, o) ∷ xs) = o ∷ objs xs

-- The pointers of the nodes lead through `xs` to `stop`.
pub data Chain (m : ℕ → Option ListNode) (stop : ℕ) : Cells → Type 0 where
  nil : Chain m stop []
  cons :
      {a o : ℕ} {xs : Cells}
      → a ≢ 0
      → m a ≡ some (record { next = start xs stop; obj = o })
      → Chain m stop xs
      → Chain m stop ((a, o) ∷ xs)

abbrev pub Distinct : Cells → Type 0
Distinct [] = Unit
Distinct ((a, _) ∷ xs) = (has a xs ≡ false) × Distinct xs

-- The list at the address `p` of the heap has the nodes `xs`.
pub record Holds (s : Store) (p : ℕ) (xs : Cells) : Type 0 where
  pub head : ListHead
  pub at : s.lists p ≡ some head
  pub first : head.first ≡ start xs 0
  pub chain : Chain s.nodes 0 xs

pub start-append : (xs ys : Cells) (stop : ℕ) → start (xs ++ ys) stop ≡ start xs (start ys stop)
start-append [] ys stop = refl
start-append ((a, o) ∷ xs) ys stop = refl

pub start-null : {m : ℕ → Option ListNode} {a o : ℕ} {xs : Cells} → Chain m 0 ((a, o) ∷ xs) → a ≢ 0
start-null (cons ne at c) = ne

-- A chain survives any change that spares its own nodes.
pub Chain-frame :
    {m m' : ℕ → Option ListNode} {stop : ℕ} {xs : Cells}
    → Chain m stop xs
    → ((a : ℕ) → has a xs ≡ true → m' a ≡ m a)
    → Chain m' stop xs
Chain-frame nil same = nil
Chain-frame (cons {a} ne at c) same =
    cons ne (same a (ground arith) ∙ at) (Chain-frame c λ b i. same b (ground (arith, i)))

pub Chain-put :
    {m : ℕ → Option ListNode} {stop : ℕ} {xs : Cells} (p : ℕ) (n : ListNode)
    → Chain m stop xs
    → has p xs ≡ false
    → Chain (put m p n) stop xs
Chain-put p n nil out = nil
Chain-put p n (cons ne at c) out =
    cons ne (ground (arith, at, out)) (Chain-put p n c (ground (arith, out)))

pub Chain-append :
    {m : ℕ → Option ListNode} {stop : ℕ} {ys xs : Cells}
    → Chain m (start ys stop) xs
    → Chain m stop ys
    → Chain m stop (xs ++ ys)
Chain-append nil d = d
Chain-append {stop} {ys} (cons {xs} ne at c) d =
    cons ne (rw (start-append xs ys stop) at) (Chain-append c d)

pub Chain-drop :
    {m : ℕ → Option ListNode} {stop : ℕ} (i : ℕ) {xs : Cells}
    → Chain m stop xs
    → Chain m stop (drop i xs)
Chain-drop zero c = c
Chain-drop (suc i) nil = nil
Chain-drop (suc i) (cons ne at c) = Chain-drop i c

has-get_elem? : (i : ℕ) (xs : Cells) (a o : ℕ) → get_elem? xs i ≡ some (a, o) → has a xs ≡ true
has-get_elem? i [] a o e = cc
has-get_elem? zero ((b, _) ∷ xs) a o e = ground (arith, e)
has-get_elem? (suc i) ((b, _) ∷ xs) a o e = ground (arith, has-get_elem? i xs a o e)

pub start-set :
    (i : ℕ) (xs : Cells) (stop a o v : ℕ)
    → get_elem? xs i ≡ some (a, o)
    → start (set xs i (a, v)) stop ≡ start xs stop
start-set i [] stop a o v e = refl
start-set zero ((b, _) ∷ xs) stop a o v e = ground (arith, e)
start-set (suc i) ((b, _) ∷ xs) stop a o v e = refl

-- The node at an index, the object of which becomes `v`.
pub Chain-set :
    {m : ℕ → Option ListNode} {stop : ℕ} (i : ℕ) {xs : Cells} (a o v : ℕ)
    → Chain m stop xs
    → Distinct xs
    → get_elem? xs i ≡ some (a, o)
    → Chain
        (put m a (record { next = start (drop (suc i) xs) stop; obj = v }))
        stop
        (set xs i (a, v))
Chain-set zero a o v nil d e = nil
Chain-set {m} {stop} zero a o v (cons {a = b} {o = w} {xs} ne at c) (out, d) e =
    let eb : b ≡ a = ground (arith, e) in
    cons (λ z. ne (eb ∙ z)) (put_same m a _) (Chain-put a _ c (ground (arith, eb, out)))
Chain-set (suc i) a o v nil d e = nil
Chain-set {m} {stop} (suc i) a o v (cons {a = b} {xs} ne at c) (out, d) e =
    let inside = has-get_elem? i xs a o e in
    let eb : b ≢ a = λ z. ground (arith, z, out, inside) in
    cons ne (put_other m a b _ eb ∙ (rw (start-set i xs stop a o v e) at)) (Chain-set i a o v c d e)
