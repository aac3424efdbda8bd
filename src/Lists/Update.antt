-- ===== src/Lists/Update.antt =====
-- list.c: `_list_set` along the chain of a list.
use animula.Prelude.{
  ℕ, zero, suc, ◌-◌, ◌^◌, ◌<◌, ◌≤◌, ◌≡◌, ◌≢◌, refl, sym, ◌∙◌, false, ltb, ◌==◌, if◌then◌else◌, some,
  [], ◌∷◌, length, get_elem?, set, drop, Bool-cases, inl, inr, ◌⊎◌, arith,
}
use animula.Prelude.Int.{pos, negsuc}
use animula.Run.{ok, panic, fault}
use animula.Object.{OType, Object, s32, none_const}
use animula.Store.{Store, not_null, fetch-some, put}
use animula.Lists.{set_loop, list_set}
use animula.Lists.Chain.{Cells, start, start-set, Chain, Chain-set, nil, cons, Distinct, Holds}

-- The store in which the node `a` of a chain has the object `v`.
abbrev with_obj : Store → Cells → (i a v : ℕ) → Store
with_obj s xs i a v = record s {
  nodes = put s.nodes a (record { next = start (drop (suc i) xs) 0; obj = v });
}

module _ (s : Store) (v : ℕ) where
  set_loop-hit :
      (fuel i a o : ℕ) {xs : Cells}
      → Chain s.nodes 0 xs
      → length xs < fuel
      → get_elem? xs i ≡ some (a, o)
      → (set_loop fuel s (start xs 0) (pos i) v ≡ ok (a, with_obj s xs i a v)) × (a ≢ 0)
  unfolding set_loop
  set_loop-hit zero i a o c h e = absurd (omega (arith, h))
  set_loop-hit (suc fuel) i a o nil h e = absurd cc
  set_loop-hit (suc fuel) zero a o (cons {a = b} {o = w} {xs} ne at c) h e =
      let eb : b ≡ a = ground (arith, e) in
      (rw (not_null b ne, fetch-some s.nodes b _ at, eb) refl, λ z. ne (eb ∙ z))
  set_loop-hit (suc fuel) (suc i) a o (cons {a = b} ne at c) h e =
      let (run, there) = set_loop-hit fuel i a o c (omega arith) e in
      (rw (not_null b ne, fetch-some s.nodes b _ at) run, there)

  set_loop-miss :
      (fuel i : ℕ) {xs : Cells}
      → Chain s.nodes 0 xs
      → length xs < fuel
      → length xs ≤ i
      → set_loop fuel s (start xs 0) (pos i) v ≡ ok (0, s)
  unfolding set_loop
  set_loop-miss zero i c h le = absurd (omega (arith, h))
  set_loop-miss (suc fuel) zero nil h le = refl
  set_loop-miss (suc fuel) (suc i) nil h le = refl
  set_loop-miss (suc fuel) zero (cons ne at c) h le = absurd (omega (arith, le))
  set_loop-miss (suc fuel) (suc i) (cons {a} ne at c) h le =
      rw (not_null a ne, fetch-some s.nodes a _ at)
        (set_loop-miss fuel i c (omega arith) (omega arith))

  set_loop-negative :
      (fuel i : ℕ) {xs : Cells}
      → Chain s.nodes 0 xs
      → length xs < fuel
      → set_loop fuel s (start xs 0) (negsuc i) v ≡ ok (0, s)
  unfolding set_loop
  set_loop-negative zero i c h = absurd (omega (arith, h))
  set_loop-negative (suc fuel) i nil h = refl
  set_loop-negative (suc fuel) i (cons {a} ne at c) h =
      rw (not_null a ne, fetch-some s.nodes a _ at) (set_loop-negative fuel (suc i) c (omega arith))

abbrev pub mut_list_object : (gc p : ℕ) → Object
mut_list_object gc p = record { type = OType.mut_list; gc = gc; value = p }

s32_cases :
    (w : ℕ) → ((w < 2 ^ 31) × (s32 w ≡ pos w)) ⊎ ((2 ^ 31 ≤ w) × (s32 w ≡ negsuc (2 ^ 32 - 1 - w)))
s32_cases w = elim (Bool-cases (ltb w (2 ^ 31))) [
  | inl e ↦ inl (ground (arith, e), rw e refl)
  | inr e ↦ inr (ground (arith, e), rw e refl)
]

start-null : {m : _} (xs : Cells) → Chain m 0 xs → 0 < length xs → start xs 0 ≢ 0
start-null [] nil h = absurd (omega (arith, h))
start-null ((a, o) ∷ xs) (cons ne at c) h = ne

get_elem?-length : (xs : Cells) (i a o : ℕ) → get_elem? xs i ≡ some (a, o) → i < length xs
get_elem?-length [] i a o e = absurd cc
get_elem?-length (x ∷ xs) zero a o e = omega arith
get_elem?-length (x ∷ xs) (suc i) a o e = omega (arith, get_elem?-length xs i a o e)

-- `_list_set` at an index of a list of distinct nodes, fewer than 2^31 and than the fuel, returns; then
-- the list has the new object in the node at the index, and only that node of the heap has changed.
pub list_set-set :
    (fuel : ℕ) (s : Store) (gc p : ℕ) (idx : Object) (v : ℕ) (xs : Cells) (a o : ℕ)
    → Holds s p xs
    → Distinct xs
    → idx.type ≡ OType.imm_int
    → length xs < fuel
    → length xs < 2 ^ 31
    → get_elem? xs idx.value ≡ some (a, o)
    → (list_set fuel s (mut_list_object gc p) idx v ≡ ok (none_const, with_obj s xs idx.value a v))
      × Holds (with_obj s xs idx.value a v) p (set xs idx.value (a, v))
unfolding list_set
list_set-set fuel s gc p idx v xs a o hold d t h small e =
    let lt = get_elem?-length xs idx.value a o e in
    let (run, there) = set_loop-hit s v fuel idx.value a o hold.chain h e in
    let sw : s32 idx.value ≡ pos idx.value = ground arith in
    (
      rw
          (
            t,
            fetch-some s.lists p _ hold.at,
            hold.first,
            not_null _ (start-null xs hold.chain (omega arith)),
            sw,
            run,
            not_null a there,
          )
          (ground arith),
      record {
        head = hold.head;
        at = hold.at;
        first = hold.first ∙ sym (start-set idx.value xs 0 a o v e);
        chain = Chain-set idx.value a o v hold.chain d e;
      },
    )

-- `_list_set` at an index that the list does not have, a negative one included, never reaches the
-- `PANIC` for it: it reads the object of the null node behind the list. Only an empty list is
-- refused. The list has fewer than 2^31 nodes, and fewer than the fuel.
pub list_set-fault :
    (fuel : ℕ) (s : Store) (gc p : ℕ) (idx : Object) (v : ℕ) (xs : Cells)
    → Holds s p xs
    → idx.type ≡ OType.imm_int
    → length xs < fuel
    → length xs < 2 ^ 31
    → length xs ≤ idx.value
    → list_set fuel s (mut_list_object gc p) idx v ≡ (if length xs == 0 then panic else fault)
unfolding list_set
list_set-fault fuel s gc p idx v [] hold t h small out =
    rw (t, fetch-some s.lists p _ hold.at, hold.first) refl
list_set-fault fuel s gc p idx v (x ∷ xs) hold t h small out =
    let some_node = not_null _ (start-null (x ∷ xs) hold.chain (omega arith)) in
    let count : (length (x ∷ xs) == 0) ≡ false = not_null _ (λ z. omega (arith, z)) in
    elim (s32_cases idx.value) [
      | inl (_, e) ↦
          rw
            (
              t,
              fetch-some s.lists p _ hold.at,
              hold.first,
              some_node,
              count,
              e,
              set_loop-miss s v fuel idx.value hold.chain h out,
            )
            refl
      | inr (_, e) ↦
          rw
            (
              t,
              fetch-some s.lists p _ hold.at,
              hold.first,
              some_node,
              count,
              e,
              set_loop-negative s v fuel _ hold.chain h,
            )
            refl
    ]
